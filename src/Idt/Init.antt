-- ===== src/Idt/Init.antt =====
-- The table that idt_init leaves.
use existent_os.Prelude.{
  ap, ℕ, zero, suc, ◌+◌, ◌≤◌, ◌<◌, ◌^◌, ◌≡◌, refl, arith, ◌∙◌, length, get_or, length-set,
  get_or-set_self, get_or-set_ne, ◌&&◌, ltb, leb, ◌==◌, if◌then◌else◌,
}
use native.Mathlib.Decide.{ℕ_discrete}
use existent_os.Idt.{Gate, Idt, empty_gate, gate_for, set_gate, set_irq_gates, init, idt_entries}
use existent_os.Idt.Image.{target, code_selector, type_byte, target-gate_for}

abbrev pub gate : Idt → ℕ → Gate
gate t k = get_or t.gates k empty_gate

module _ (irq : ℕ → ℕ) where
  abbrev irq_gate : ℕ → Gate
  irq_gate k = gate_for (irq k) 0x08 0x8e

  gate-set_gate :
      (vec k : ℕ) (t : Idt)
      → vec < length t.gates
      → gate (set_gate vec (irq vec) 0x08 0x8e t) k ≡ (if vec == k then irq_gate k else gate t k)
  unfolding set_gate
  gate-set_gate vec k t h = elim (ℕ_discrete vec k) [
    | yes e ↦ rw e (get_or-set_self t.gates k (irq_gate k) empty_gate (omega arith) ∙ ground arith)
    | no ne ↦ get_or-set_ne t.gates vec k (irq_gate vec) empty_gate ne ∙ ground arith
  ]

  length-set_gate :
      (vec h : ℕ) (t : Idt) → length (set_gate vec h 0x08 0x8e t).gates ≡ length t.gates
  unfolding set_gate
  length-set_gate vec h t = length-set t.gates vec _

  -- The calls reach the vectors from `vec` to `vec + n` and no other.
  gate-set_irq_gates :
      (n vec k : ℕ) (t : Idt)
      → vec + n ≤ length t.gates
      → gate (set_irq_gates irq n vec t) k
        ≡ (if leb vec k && ltb k (vec + n) then irq_gate k else gate t k)
  unfolding set_irq_gates
  gate-set_irq_gates zero vec k t h = ground arith
  gate-set_irq_gates (suc n) vec k t h =
      gate-set_irq_gates n (vec + 1) k (set_gate vec (irq vec) 0x08 0x8e t)
        (omega (arith, length-set_gate vec (irq vec) t))
      ∙ ground (arith, gate-set_gate vec k t (omega arith))

  pointer-set_irq_gates : (n vec : ℕ) (t : Idt) → (set_irq_gates irq n vec t).pointer ≡ t.pointer
  unfolding set_irq_gates set_gate
  pointer-set_irq_gates zero vec t = refl
  pointer-set_irq_gates (suc n) vec t = pointer-set_irq_gates n (vec + 1) _

  init_gates :
      (base k : ℕ) (t : Idt)
      → length t.gates ≡ idt_entries
      → gate (init irq base t) k ≡ (if ltb k 16 then irq_gate k else gate t k)
  unfolding init
  init_gates base k t size =
      gate-set_irq_gates 16 0 k (record t { pointer = record { limit = 4095; base = base } })
        (omega arith)
      ∙ ground arith

  pub pointer-init :
      (base : ℕ) (t : Idt) → (init irq base t).pointer ≡ record { limit = 4095; base = base }
  unfolding init
  pointer-init base t = pointer-set_irq_gates 16 0 _

  -- After idt_init a vector below 16 leads to its entry point, in the kernel's code segment, through
  -- an interrupt gate of the highest privilege (type 0x8e), and the pointer has the table's address
  -- and its last byte.
  pub gate-init :
      (base k : ℕ) (t : Idt)
      → length t.gates ≡ idt_entries
      → k < 16
      → irq k < 2 ^ 64
      → let t' = init irq base t in
        (target (gate t' k) ≡ irq k)
        × (code_selector (gate t' k) ≡ 0x08)
        × (type_byte (gate t' k) ≡ 0x8e)
        × (t'.pointer ≡ record { limit = 4095; base = base })
  gate-init base k t size low address =
      let set_here : gate (init irq base t) k ≡ irq_gate k =
        init_gates base k t size ∙ ground arith in
      let (target_is, selector_is, type_is) =
        target-gate_for (irq k) 0x08 0x8e address (omega arith) in
      (
        ap target set_here ∙ target_is,
        ap code_selector set_here ∙ selector_is,
        ap type_byte set_here ∙ type_is,
        pointer-init base t,
      )

  -- Every other vector is as before.
  pub gate-init_above :
      (base k : ℕ) (t : Idt)
      → length t.gates ≡ idt_entries
      → 16 ≤ k
      → gate (init irq base t) k ≡ gate t k
  gate-init_above base k t size high = init_gates base k t size ∙ ground arith
