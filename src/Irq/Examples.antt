-- ===== src/Irq/Examples.antt =====
-- The theorem about the interrupt entry points at a page fault.
use existent_os.Prelude.{ℕ, ◌+◌, ◌*◌, ◌≡◌, refl, arith, [], ◌∷◌, some, none}
use existent_os.Idt.{loaded, init}
use existent_os.Idt.Init.{gate}
use existent_os.Idt.Image.{target}
use existent_os.Irq.{
  Registers, Frame, Machine, deliver, enter, service, entry_at, push_all, pop_all, dispatch,
  irq_common, context_at, put_context, irq_handler, irq_handler_generic, pushes_number_only, iretq,
}
use existent_os.Irq.Resume.{context_of, service-deliver}

-- The entry points lie sixteen bytes apart.
abbrev entry_point : ℕ → ℕ
entry_point n = 0x200100 + n * 16

abbrev sevens : Registers
sevens r = 7

abbrev zeros : Registers → Registers
zeros registers r = 0

abbrev program : Frame
program = record { rip = 0x201000; cs = 8; rflags = 0x202; rsp = 0x7fff00; ss = 16 }

abbrev machine : Machine
machine = record { registers = sevens; stack = 11 ∷ 12 ∷ []; calls = [] }

service-deliver_example :
    let (m', f') =
      service zeros 14 (record machine { stack = deliver (some 2) program machine.stack }) in
    (entry_at entry_point 16 (target (gate (init entry_point 0x300000 loaded) 14)) ≡ some 14)
    × (m'.calls ≡ ((14, context_of 14 2 sevens) ∷ []))
    × (m'.registers ≡ sevens)
    × (f' ≡ program)
service-deliver_example =
    service-deliver entry_point 0x300000 14 loaded zeros (some 2) program machine refl (omega arith)
      (omega arith) (λ k low same. omega arith) refl

-- Where the processor pushes no error code on vector 8, as for an interrupt from a device, the
-- entry point takes the frame one word too far.
frame_of_device_interrupt :
    (service zeros 8 (record machine { stack = deliver none program machine.stack })).1
    ≡ record { rip = 8; cs = 0x202; rflags = 0x7fff00; rsp = 16; ss = 11 }
unfolding service deliver enter pushes_number_only irq_common push_all pop_all dispatch context_at
    put_context irq_handler irq_handler_generic iretq
frame_of_device_interrupt = refl
