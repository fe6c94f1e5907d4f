-- ===== src/Irq.antt =====
-- The entry points of kernel/drivers/system/interrupts.S and the handlers of irq_handlers.c beside
-- it. A stack is the list of the 64-bit words from %rsp upward; a word that it lacks is read as 0.
pub mod Resume
mod Examples
use existent_os.Prelude.{
  ℕ, zero, suc, ◌+◌, Bool, ◌||◌, List, [], ◌∷◌, ◌++◌, Option, none, some, ltb, ◌==◌, if◌then◌else◌,
  get_or, drop,
}

-- The registers that irq_common saves.
pub data Register : Type 0 where
  rax rbx rcx rdx rsi rdi rbp r8 r9 r10 r11 r12 r13 r14 r15 : Register

abbrev pub Registers : Type 0
Registers = Register → ℕ

-- `struct irq_context`, which is packed: seventeen words.
pub record Context : Type 0 where
  pub r15 : ℕ
  pub r14 : ℕ
  pub r13 : ℕ
  pub r12 : ℕ
  pub r11 : ℕ
  pub r10 : ℕ
  pub r9 : ℕ
  pub r8 : ℕ
  pub rbp : ℕ
  pub rdi : ℕ
  pub rsi : ℕ
  pub rdx : ℕ
  pub rcx : ℕ
  pub rbx : ℕ
  pub rax : ℕ
  pub irq_number : ℕ
  pub error_code : ℕ

-- The struct at %rsp, and the stack after a function has written it.
unfoldable pub context_at : List ℕ → Context
context_at stack =
    let word = λ (i : ℕ). get_or stack i 0 in
    record {
      r15 = word 0;
      r14 = word 1;
      r13 = word 2;
      r12 = word 3;
      r11 = word 4;
      r10 = word 5;
      r9 = word 6;
      r8 = word 7;
      rbp = word 8;
      rdi = word 9;
      rsi = word 10;
      rdx = word 11;
      rcx = word 12;
      rbx = word 13;
      rax = word 14;
      irq_number = word 15;
      error_code = word 16;
    }

unfoldable pub put_context : Context → List ℕ → List ℕ
put_context c stack =
    c.r15
    ∷ c.r14
    ∷ c.r13
    ∷ c.r12
    ∷ c.r11
    ∷ c.r10
    ∷ c.r9
    ∷ c.r8
    ∷ c.rbp
    ∷ c.rdi
    ∷ c.rsi
    ∷ c.rdx
    ∷ c.rcx
    ∷ c.rbx
    ∷ c.rax
    ∷ c.irq_number
    ∷ c.error_code
    ∷ drop 17 stack

-- The body only discards its argument.
unfoldable pub irq_handler_generic : Context → Context
irq_handler_generic ctx = ctx

-- irq0_handler to irq15_handler: the sixteen bodies are the same call.
unfoldable pub irq_handler : ℕ → Context → Context
irq_handler n ctx = irq_handler_generic ctx

-- The registers, the stack, and the handlers called so far with what each was given.
pub record Machine : Type 0 where
  pub registers : Registers
  pub stack : List ℕ
  pub calls : List (ℕ × Context)

-- irq8 and irq10 to irq14 push their number only; the others push a 0 below it, where an exception
-- that has an error code has it.
unfoldable pub pushes_number_only : ℕ → Bool
pushes_number_only n = n == 8 || (n == 10 || (n == 11 || (n == 12 || (n == 13 || n == 14))))

-- irq0 to irq15, up to the jump to irq_common.
unfoldable pub enter : ℕ → List ℕ → List ℕ
enter n stack = if pushes_number_only n then n ∷ stack else n ∷ 0 ∷ stack

-- In the order of the pushes, and of the pops, of irq_common.
abbrev pub pushed : List Register
pushed =
    Register.rax ∷ Register.rbx ∷ Register.rcx ∷ Register.rdx ∷ Register.rsi ∷ Register.rdi
    ∷ Register.rbp ∷ Register.r8 ∷ Register.r9 ∷ Register.r10 ∷ Register.r11 ∷ Register.r12
    ∷ Register.r13 ∷ Register.r14 ∷ Register.r15 ∷ []

abbrev pub popped : List Register
popped =
    Register.r15 ∷ Register.r14 ∷ Register.r13 ∷ Register.r12 ∷ Register.r11 ∷ Register.r10
    ∷ Register.r9 ∷ Register.r8 ∷ Register.rbp ∷ Register.rdi ∷ Register.rsi ∷ Register.rdx
    ∷ Register.rcx ∷ Register.rbx ∷ Register.rax ∷ []

-- `pushq`, one after the other.
unfoldable pub push_all : List Register → Registers → List ℕ → List ℕ
push_all [] registers stack = stack
push_all (r ∷ rs) registers stack = push_all rs registers (registers r ∷ stack)

abbrev number_of : Register → ℕ
number_of Register.rax = 0
number_of Register.rbx = 1
number_of Register.rcx = 2
number_of Register.rdx = 3
number_of Register.rsi = 4
number_of Register.rdi = 5
number_of Register.rbp = 6
number_of Register.r8 = 7
number_of Register.r9 = 8
number_of Register.r10 = 9
number_of Register.r11 = 10
number_of Register.r12 = 11
number_of Register.r13 = 12
number_of Register.r14 = 13
number_of Register.r15 = 14

abbrev put : Register → ℕ → Registers → Registers
put r value registers other = if number_of r == number_of other then value else registers other

-- `popq`, one after the other.
unfoldable pub pop_all : List Register → Registers → List ℕ → Registers × List ℕ
pop_all [] registers stack = (registers, stack)
pop_all (r ∷ rs) registers stack = pop_all rs (put r (get_or stack 0 0) registers) (drop 1 stack)

-- The comparisons with 0 to 15 and the call that one of them leads to. `number` is the word at
-- 120(%rsp), and the compiled handler may leave other values in the registers: `clobber`.
unfoldable pub dispatch : (Registers → Registers) → Machine → Machine
dispatch clobber m =
    let number = get_or m.stack 15 0 in
    let context = context_at m.stack in
    if ltb number 16
    then record {
      registers = clobber m.registers;
      stack = put_context (irq_handler number context) m.stack;
      calls = m.calls ++ ((number, context) ∷ []);
    }
    else m

-- irq_common up to `addq $16, %rsp`, which drops the number and the error code.
unfoldable pub irq_common : (Registers → Registers) → Machine → Machine
irq_common clobber m =
    let m' = dispatch clobber (record m { stack = push_all pushed m.registers m.stack }) in
    let (registers, stack) = pop_all popped m'.registers m'.stack in
    record m' { registers = registers; stack = drop 2 stack }

-- What the processor pushes when it takes an interrupt in 64-bit mode, and what iretq takes back.
pub record Frame : Type 0 where
  pub rip : ℕ
  pub cs : ℕ
  pub rflags : ℕ
  pub rsp : ℕ
  pub ss : ℕ

unfoldable pub deliver : Option ℕ → Frame → List ℕ → List ℕ
deliver none f stack = f.rip ∷ f.cs ∷ f.rflags ∷ f.rsp ∷ f.ss ∷ stack
deliver (some code) f stack = code ∷ f.rip ∷ f.cs ∷ f.rflags ∷ f.rsp ∷ f.ss ∷ stack

unfoldable pub iretq : List ℕ → Frame
iretq stack = record {
  rip = get_or stack 0 0;
  cs = get_or stack 1 0;
  rflags = get_or stack 2 0;
  rsp = get_or stack 3 0;
  ss = get_or stack 4 0;
}

-- From the entry point of interrupt `n` to iretq.
unfoldable pub service : (Registers → Registers) → ℕ → Machine → Machine × Frame
service clobber n m =
    let m' = irq_common clobber (record m { stack = enter n m.stack }) in (m', iretq m'.stack)

-- The entry point at an address, where `irq n` is the address of that of interrupt `n`.
unfoldable pub entry_at : (ℕ → ℕ) → ℕ → ℕ → Option ℕ
entry_at irq zero address = none
entry_at irq (suc n) address = if irq n == address then some n else entry_at irq n address
