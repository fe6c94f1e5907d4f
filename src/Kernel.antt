-- ===== src/Kernel.antt =====
-- kernel/kernel.c and kernel/drivers/system/calldrivers.c: the drivers put together.
pub mod Startup
mod Examples
use existent_os.Prelude.{ℕ, List, [], ◌∷◌, ◌++◌, Option, none, some}
use existent_os.Devices
use existent_os.Devices.{Devices, Event, cli, hlt, lidt, cpuid}
use existent_os.Cpu
use existent_os.Cpu.{CpuInfo, Registers}
use existent_os.Idt
use existent_os.Idt.{Idt}
use existent_os.Mouse
use existent_os.Mouse.{Mouse}

-- `kernel_boot_info_t`
pub record BootInfo : Type 0 where
  pub memory_bytes : ℕ
  pub rsdp : ℕ

-- The static variables of the kernel image, and what was done to the hardware so far.
pub record Kernel : Type 0 where
  pub devices : Devices
  pub mouse : Mouse
  pub cpu : CpuInfo
  pub idt : Idt
  pub trace : List Event

abbrev pub loaded : Kernel
loaded = record {
  devices = Devices.loaded;
  mouse = Mouse.loaded;
  cpu = Cpu.loaded;
  idt = Idt.loaded;
  trace = [];
}

-- The linker's addresses of the entry points, of the table and of its pointer, and the processor.
pub record Machine : Type 0 where
  pub irq : ℕ → ℕ
  pub idt_address : ℕ
  pub idtp_address : ℕ
  pub registers : ℕ → Registers

module _ (m : Machine) where
  unfoldable pub idt_init : Kernel → Kernel
  idt_init k = record k {
    idt = Idt.init m.irq m.idt_address k.idt;
    trace = k.trace ++ (lidt m.idtp_address ∷ []);
  }

  unfoldable pub cpu_init : Kernel → Kernel
  cpu_init k = record k {
    cpu = Cpu.init m.registers k.cpu;
    trace = k.trace ++ (cpuid 0 ∷ cpuid 1 ∷ []);
  }

  -- `if (boot_info) { ... }`
  unfoldable pub accept_boot_info : Option BootInfo → Devices → Devices
  accept_boot_info none d = d
  accept_boot_info (some b) d =
      Devices.acpi_set_rsdp b.rsdp (Devices.memory_set_total_bytes b.memory_bytes d)

  abbrev step_devices : (Devices → Devices) → Kernel → Kernel
  step_devices f k = record k { devices = f k.devices }

  abbrev step_trace : (List Event → List Event) → Kernel → Kernel
  step_trace f k = record k { trace = f k.trace }

  -- Up to the first `hlt`, where the kernel stays: interrupts are off, so no `hlt` is left.
  unfoldable pub kernel_startup : Option BootInfo → Kernel → Kernel
  unfolding idt_init cpu_init accept_boot_info
  kernel_startup boot_info k =
      let k₁ = step_trace (λ t. t ++ (cli ∷ [])) k in
      let k₂ = step_devices (accept_boot_info boot_info) k₁ in
      let k₃ = step_devices Devices.memory_init k₂ in
      let k₄ = step_devices Devices.acpi_init k₃ in
      let k₅ = idt_init k₄ in
      let k₆ = cpu_init k₅ in
      let k₇ = step_trace Devices.pic_disable k₆ in step_trace (λ t. t ++ (hlt ∷ [])) k₇

  -- `pci_init` and `pic_init` have no statement.
  unfoldable pub drivers_init : Kernel → Kernel
  unfolding idt_init
  drivers_init k =
      let k₁ = step_devices Devices.acpi_init k in
      let k₂ = step_devices Devices.battery_init k₁ in
      let k₃ = step_devices Devices.memory_init k₂ in
      let k₄ = record k₃ { mouse = Mouse.init k₃.mouse } in
      let k₅ = step_devices Devices.storage_init k₄ in
      let k₆ = step_devices Devices.usb_init k₅ in idt_init k₆
