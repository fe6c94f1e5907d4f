-- ===== src/Idt/Image.antt =====
-- A gate as the processor reads it from memory.
use existent_os.Prelude.{ℕ, ◌+◌, ◌*◌, ◌/◌, ◌%◌, ◌^◌, ◌<◌, ◌≡◌, refl, arith, List, [], ◌∷◌, get_or}
use existent_os.Prelude.Bits.{bit_and-ones}
use existent_os.Idt.{Gate, gate_for}

-- The sixteen bytes of `struct idt_entry64`, which is packed.
unfoldable pub gate_bytes : Gate → List ℕ
gate_bytes g =
    g.offset_low % 256
    ∷ g.offset_low / 256 % 256
    ∷ g.selector % 256
    ∷ g.selector / 256 % 256
    ∷ g.ist
    ∷ g.type_attr
    ∷ g.offset_mid % 256
    ∷ g.offset_mid / 256 % 256
    ∷ g.offset_high % 256
    ∷ g.offset_high / 256 % 256
    ∷ g.offset_high / 65536 % 256
    ∷ g.offset_high / 16777216 % 256
    ∷ g.zero_field % 256
    ∷ g.zero_field / 256 % 256
    ∷ g.zero_field / 65536 % 256
    ∷ g.zero_field / 16777216 % 256
    ∷ []

abbrev byte : Gate → ℕ → ℕ
byte g i = get_or (gate_bytes g) i 0

-- Where a 64-bit interrupt gate has its target, selector and type, by the processor's manual.
abbrev pub target : Gate → ℕ
target g =
    byte g 0
    + 2 ^ 8 * byte g 1
    + 2 ^ 16 * byte g 6
    + 2 ^ 24 * byte g 7
    + 2 ^ 32 * byte g 8
    + 2 ^ 40 * byte g 9
    + 2 ^ 48 * byte g 10
    + 2 ^ 56 * byte g 11

abbrev pub code_selector : Gate → ℕ
code_selector g = byte g 2 + 2 ^ 8 * byte g 3

abbrev pub type_byte : Gate → ℕ
type_byte g = byte g 5

-- The gate that idt_set_gate stores sends the processor to the handler, with the given selector
-- and type.
pub target-gate_for :
    (handler selector flags : ℕ)
    → handler < 2 ^ 64
    → selector < 2 ^ 16
    → let g = gate_for handler selector flags in
      (target g ≡ handler) × (code_selector g ≡ selector) × (type_byte g ≡ flags)
unfolding gate_for gate_bytes
target-gate_for handler selector flags h k =
    rw
      (
        bit_and-ones 16 handler 0xffff refl,
        bit_and-ones 16 (handler / 2 ^ 16) 0xffff refl,
        bit_and-ones 32 (handler / 2 ^ 32) 0xffffffff refl,
      )
      (omega arith)
