-- ===== src/System.antt =====
-- The machine from the start of the loader to the halt of the kernel: efi_main of
-- OSC/boot/efi_main.c, and kernel_startup of OSC/kernel/kernel.c on the boot record that it is called
-- with.
pub mod Booted
mod Examples
use existent_os.Prelude.{Option, none, some}
use existent_os.Boot.Main.{Ending, kernel, returned}
use existent_os.Kernel
use existent_os.Kernel.{Kernel, Machine, kernel_startup}

-- `entry(&kernel_boot_info)`: the kernel's state when it halts, if it was called.
unfoldable pub started : Machine → Ending → Option Kernel
started m (kernel info image) = some (kernel_startup m (some info) Kernel.loaded)
started m (returned status) = none
