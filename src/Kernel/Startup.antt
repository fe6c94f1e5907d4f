-- ===== src/Kernel/Startup.antt =====
-- What the kernel has done when it halts.
use existent_os.Prelude.{ℕ, Option, none, some}
use existent_os.Devices
use existent_os.Devices.{Devices, Event}
use existent_os.Idt
use existent_os.Idt.{Idt, idt_entries}
use existent_os.Kernel.{BootInfo}

-- What the kernel knows of memory and ACPI, without a boot record and with one.
abbrev known_memory : Option BootInfo → ℕ
known_memory none = 0
known_memory (some b) = b.memory_bytes

abbrev known_rsdp : Option BootInfo → ℕ
known_rsdp none = 0
known_rsdp (some b) = b.rsdp
