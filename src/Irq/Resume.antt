-- ===== src/Irq/Resume.antt =====
-- An interrupt leaves the interrupted program as it was.
use existent_os.Prelude.{
  ℕ, zero, suc, ◌<◌, ◌^◌, ◌≡◌, ◌≢◌, refl, ap, sym, arith, Bool, true, false, List, [], ◌∷◌, ◌++◌,
  Option, none, some, ◌&&◌, ◌||◌, ltb, leb, ◌==◌, length,
}
use native.Mathlib.Decide.{ℕ_discrete}
use existent_os.Idt.{Idt, idt_entries, init}
use existent_os.Idt.Init.{gate, gate-init}
use existent_os.Idt.Image.{target}
use existent_os.Irq.{
  Register, Registers, Context, Machine, Frame, pushes_number_only, enter, pushed, popped, push_all,
  pop_all, dispatch, irq_common, deliver, iretq, service, entry_at, context_at, put_context,
  irq_handler, irq_handler_generic,
}

-- What handler `n` is given.
abbrev pub context_of : ℕ → ℕ → Registers → Context
context_of n code registers = record {
  r15 = registers Register.r15;
  r14 = registers Register.r14;
  r13 = registers Register.r13;
  r12 = registers Register.r12;
  r11 = registers Register.r11;
  r10 = registers Register.r10;
  r9 = registers Register.r9;
  r8 = registers Register.r8;
  rbp = registers Register.rbp;
  rdi = registers Register.rdi;
  rsi = registers Register.rsi;
  rdx = registers Register.rdx;
  rcx = registers Register.rcx;
  rbx = registers Register.rbx;
  rax = registers Register.rax;
  irq_number = n;
  error_code = code;
}

-- The exceptions among the first sixteen that push an error code, by the processor's manual: the
-- double fault, and from the invalid task state segment to the page fault.
abbrev pub has_error_code : ℕ → Bool
has_error_code n = n == 8 || (leb 10 n && leb n 14)

abbrev pub is_some : Option ℕ → Bool
is_some none = false
is_some (some code) = true

abbrev pub code_or_zero : Option ℕ → ℕ
code_or_zero none = 0
code_or_zero (some code) = code

abbrev machine_at : ℕ → ℕ → Frame → Machine → Machine
machine_at n code f m = record m { stack = n ∷ code ∷ deliver none f m.stack }

-- What is popped is what was pushed, for every register.
pop_all-push_all :
    (before after : Registers) (stack : List ℕ) (r : Register)
    → (pop_all popped after (push_all pushed before stack)).0 r ≡ before r
unfolding push_all pop_all
pop_all-push_all before after stack Register.rax = refl
pop_all-push_all before after stack Register.rbx = refl
pop_all-push_all before after stack Register.rcx = refl
pop_all-push_all before after stack Register.rdx = refl
pop_all-push_all before after stack Register.rsi = refl
pop_all-push_all before after stack Register.rdi = refl
pop_all-push_all before after stack Register.rbp = refl
pop_all-push_all before after stack Register.r8 = refl
pop_all-push_all before after stack Register.r9 = refl
pop_all-push_all before after stack Register.r10 = refl
pop_all-push_all before after stack Register.r11 = refl
pop_all-push_all before after stack Register.r12 = refl
pop_all-push_all before after stack Register.r13 = refl
pop_all-push_all before after stack Register.r14 = refl
pop_all-push_all before after stack Register.r15 = refl

irq_common-saved :
    (clobber : Registers → Registers) (n code : ℕ) (f : Frame) (m : Machine) (r : Register)
    → n < 16
    → (irq_common clobber (machine_at n code f m)).registers r ≡ m.registers r
unfolding irq_common dispatch context_at put_context irq_handler irq_handler_generic push_all
irq_common-saved clobber n code f m r low =
    let known : ltb n 16 ≡ true = ground arith in
    rw known
      (pop_all-push_all m.registers (clobber m.registers) (n ∷ code ∷ deliver none f m.stack) r)

irq_common-frame :
    (clobber : Registers → Registers) (n code : ℕ) (f : Frame) (m : Machine)
    → n < 16
    → let m' = irq_common clobber (machine_at n code f m) in
      (m'.stack ≡ deliver none f m.stack)
      × (m'.calls ≡ m.calls ++ ((n, context_of n code m.registers) ∷ []))
unfolding irq_common dispatch push_all pop_all context_at put_context irq_handler
    irq_handler_generic deliver
irq_common-frame clobber n code f m low =
    let known : ltb n 16 ≡ true = ground arith in rw known (refl, refl)

enter-machine :
    (n : ℕ) (code : Option ℕ) (f : Frame) (stack : List ℕ)
    → is_some code ≡ has_error_code n
    → n < 16
    → enter n (deliver code f stack) ≡ n ∷ code_or_zero code ∷ deliver none f stack
unfolding enter pushes_number_only deliver
enter-machine n none f stack h low =
    let other : pushes_number_only n ≡ false = ground arith in rw other refl
enter-machine n (some code) f stack h low =
    let alone : pushes_number_only n ≡ true = ground arith in rw alone refl

entry_at-irq :
    (irq : ℕ → ℕ) (bound n : ℕ)
    → n < bound
    → ((k : ℕ) → k < bound → irq k ≡ irq n → k ≡ n)
    → entry_at irq bound (irq n) ≡ some n
unfolding entry_at
entry_at-irq irq zero n h apart = absurd (omega arith)
entry_at-irq irq (suc bound) n h apart = elim (ℕ_discrete (irq bound) (irq n)) [
  | yes e ↦ ground (arith, apart bound (omega arith) e)
  | no ne ↦
      let apart_from : n ≢ bound = λ e. ne (ap irq (sym e)) in
      let below : n < bound = omega (arith, apart_from) in
      ground (arith, entry_at-irq irq bound n below (λ k less. apart k (omega arith)))
]

-- Vector `n` below 16, taken through the table that idt_init left, where the sixteen entry points
-- are at different 64-bit addresses and the processor pushes an error code exactly where the
-- manual says: the gate leads to entry `n`, handler `n` is called once, with the registers of the
-- interrupted program, the number and the error code (0 where there is none), and then, whatever
-- the handler leaves in the registers, every register and the frame that iretq takes back are the
-- interrupted program's.
pub service-deliver :
    (irq : ℕ → ℕ) (base n : ℕ) (t : Idt) (clobber : Registers → Registers) (code : Option ℕ)
    (f : Frame) (m : Machine)
    → length t.gates ≡ idt_entries
    → n < 16
    → irq n < 2 ^ 64
    → ((k : ℕ) → k < 16 → irq k ≡ irq n → k ≡ n)
    → is_some code ≡ has_error_code n
    → let (m', f') = service clobber n (record m { stack = deliver code f m.stack }) in
      (entry_at irq 16 (target (gate (init irq base t) n)) ≡ some n)
      × (m'.calls ≡ m.calls ++ ((n, context_of n (code_or_zero code) m.registers) ∷ []))
      × (m'.registers ≡ m.registers)
      × (f' ≡ f)
unfolding service iretq deliver
service-deliver irq base n t clobber code f m size low address apart manual =
    let (target_is, _, _, _) = gate-init irq base n t size low address in
    rw (enter-machine n code f m.stack manual low, target_is)
      (
        entry_at-irq irq 16 n low apart,
        (irq_common-frame clobber n (code_or_zero code) f m low).1,
        (λ i r. irq_common-saved clobber n (code_or_zero code) f m r low i),
        ap iretq (irq_common-frame clobber n (code_or_zero code) f m low).0,
      )
