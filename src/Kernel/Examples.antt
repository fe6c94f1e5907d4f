-- ===== src/Kernel/Examples.antt =====
-- The start of the kernel on a concrete machine.
use existent_os.Prelude.{◌+◌, ◌*◌}
use existent_os.Devices
use existent_os.Kernel.{BootInfo, Machine}

abbrev machine : Machine
machine = record {
  irq = λ n. 0x200100 + n * 16;
  idt_address = 0x300000;
  idtp_address = 0x301000;
  registers = λ leaf. record { eax = 0; ebx = 0; ecx = 0; edx = 0 };
}

abbrev boot : BootInfo
boot = record { memory_bytes = 0x20000000; rsdp = 0xe0000 }
