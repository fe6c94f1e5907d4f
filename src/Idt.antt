-- ===== src/Idt.antt =====
-- kernel/drivers/system/idt.c: the interrupt descriptor table.
-- The addresses of the assembly entry points irq0 to irq15 and of the table are the linker's: they
-- are arguments.
pub mod Image
pub mod Init
mod Examples
use Prim.Native.Nat.{bit_and}
use existent_os.Prelude.{ℕ, zero, suc, ◌+◌, ◌-◌, ◌*◌, ◌/◌, ◌^◌, List, replicate, set}

abbrev pub idt_entries : ℕ
idt_entries = 256

-- `struct idt_entry64`
pub record Gate : Type 0 where
  pub offset_low : ℕ
  pub selector : ℕ
  pub ist : ℕ
  pub type_attr : ℕ
  pub offset_mid : ℕ
  pub offset_high : ℕ
  pub zero_field : ℕ

-- `struct idt_ptr64`
pub record Pointer : Type 0 where
  pub limit : ℕ
  pub base : ℕ

-- `idt` and `idtp`
pub record Idt : Type 0 where
  pub gates : List Gate
  pub pointer : Pointer

abbrev pub empty_gate : Gate
empty_gate = record {
  offset_low = 0;
  selector = 0;
  ist = 0;
  type_attr = 0;
  offset_mid = 0;
  offset_high = 0;
  zero_field = 0;
}

abbrev pub loaded : Idt
loaded = record {
  gates = replicate idt_entries empty_gate;
  pointer = record { limit = 0; base = 0 };
}

unfoldable pub gate_for : ℕ → ℕ → ℕ → Gate
gate_for handler selector flags = record {
  offset_low = bit_and handler 0xffff;
  selector = selector;
  ist = 0;
  type_attr = flags;
  offset_mid = bit_and (handler / 2 ^ 16) 0xffff;
  offset_high = bit_and (handler / 2 ^ 32) 0xffffffff;
  zero_field = 0;
}

-- A vector out of the table is undefined in C; here it changes nothing.
unfoldable pub set_gate : ℕ → ℕ → ℕ → ℕ → Idt → Idt
set_gate vec handler selector flags t = record t {
  gates = set t.gates vec (gate_for handler selector flags);
}

-- The calls of idt_set_gate for the vectors from `vec` on, `n` of them. idt_init writes the sixteen
-- calls out one by one.
unfoldable pub set_irq_gates : (ℕ → ℕ) → ℕ → ℕ → Idt → Idt
set_irq_gates irq zero vec t = t
set_irq_gates irq (suc n) vec t = set_irq_gates irq n (vec + 1) (set_gate vec (irq vec) 0x08 0x8e t)

-- `irq n` is the address of the entry point of interrupt `n` and `base` that of the table.
-- `sizeof(struct idt_entry64)` is 16.
unfoldable pub init : (ℕ → ℕ) → ℕ → Idt → Idt
init irq base t =
    set_irq_gates irq 16 0
      (record t { pointer = record { limit = 16 * idt_entries - 1; base = base } })
