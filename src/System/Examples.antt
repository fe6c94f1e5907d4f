-- ===== src/System/Examples.antt =====
-- The machine on concrete firmware.
use existent_os.Prelude.{ℕ, List, replicate, ◌+◌, ◌*◌, true, arith}
use existent_os.Kernel.{Machine}
use existent_os.Boot.{Services}
use existent_os.Boot.Loaded.{exit_services}
use existent_os.Boot.Examples.{
  kernel_bytes, kernel_volume, kernel_volume-IsWide, pages_at, one_descriptor, typed_keys,
  read_only-IsSound,
}
use existent_os.Boot.Guard.{IsSignedIn}
use existent_os.Boot.Left.{HasSizes}
use existent_os.Boot.Main.{efi_main}
use existent_os.Shell.Kept.{Ends}
use existent_os.Shell.State.{loaded}
use existent_os.System.Booted.{IsBooted, efi_main-IsBooted}

-- The arrays on the stack hold zeros.
abbrev fresh : ℕ → List ℕ
fresh n = replicate n 0

abbrev firmware_services : Services
firmware_services =
    exit_services kernel_volume pages_at (λ w. (one_descriptor, w)) (λ key w. (0, w)) true fresh

firmware_services-HasSizes : HasSizes firmware_services
firmware_services-HasSizes = record { sized = λ w ok. omega arith }

abbrev machine : Machine
machine = record {
  irq = λ n. 0x200100 + n * 16;
  idt_address = 0x300000;
  idtp_address = 0x301000;
  registers = λ leaf. record { eax = 0; ebx = 0; ecx = 0; edx = 0 };
}

efi_main-IsBooted_example :
    Ends
      (λ e t.
        IsSignedIn t.accounts
        × IsBooted kernel_volume pages_at
            (λ w. (one_descriptor, w))
            (λ key w. (0, w))
            true
            fresh
            machine
            3
            typed_keys
            tt
            e
            t.world)
      (efi_main kernel_volume pages_at
        (λ w. (one_descriptor, w))
        (λ key w. (0, w))
        true
        fresh
        3
        (loaded typed_keys tt))
efi_main-IsBooted_example =
    efi_main-IsBooted kernel_volume pages_at (λ w. (one_descriptor, w)) (λ key w. (0, w)) true fresh
      machine 3 typed_keys tt (omega arith) kernel_volume-IsWide (read_only-IsSound kernel_bytes)
      firmware_services-HasSizes
