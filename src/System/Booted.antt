-- ===== src/System/Booted.antt =====
-- How the loader and the kernel end together.
use existent_os.Prelude.{
  ◌∙◌, ℕ, ◌*◌, ◌/◌, ◌%◌, ◌^◌, ◌≡◌, refl, Bool, false, List, [], ◌∷◌, Option, none, some, arith,
  ◌==◌, Bool-cases, inl, inr,
}
use existent_os.Firmware.{Firmware}
use existent_os.Accounts.Valid.{IsChars}
use existent_os.Devices
use existent_os.Devices.{Event, cli, hlt, outb, lidt, cpuid}
use existent_os.Kernel
use existent_os.Kernel.{BootInfo, Kernel, Machine, kernel_startup}
use existent_os.Layout.Readers.{map_pages, total_memory-read_member}
use existent_os.Boot.{MemoryMap, Services, Outcome, failed, left, again, total_memory}
use existent_os.Boot.Guard.{IsSignedIn, efi_main-IsSignedIn}
use existent_os.Boot.Left.{HasSizes, IsLeft, LeavesIfAny, leave_boot_services-Leaves}
use existent_os.Boot.Loaded.{IsSound, IsKernel, Has, exit_services, load_kernel-IsKernel}
use existent_os.Boot.Loading.{Image, load_error, load_kernel}
use existent_os.Boot.Main.{
  Ending, kernel, returned, boot_message, init_accounts, init_eosfs, fail, after_leaving,
  start_kernel, efi_main,
}
use existent_os.Shell.State.{State, loaded, write, write_line}
use existent_os.Shell.Run.{Run, done, waiting, exhausted, ◌>>◌, modify}
use existent_os.Shell.Programs
use existent_os.Shell.Execute.{execute_command}
use existent_os.Shell.Session.{run_batch, run_shell}
use existent_os.Shell.Kept.{IsWide, Ends, and_then-Ends}
use existent_os.System.{started}

-- What the kernel has done when it halts, on a map that the firmware gave.
pub record Knows (m : Machine) (map : MemoryMap) (k : Kernel) : Type 0 where
  pub trace :
      k.trace
      ≡ cli ∷ lidt m.idtp_address ∷ cpuid 0 ∷ cpuid 1 ∷ outb 0x21 0xff ∷ outb 0xa1 0xff ∷ hlt ∷ []
  pub pages : ℕ
  pub counted :
      map_pages (map.size / map.descriptor_size) map.descriptor_size map.buffer ≡ some pages
  pub memory : Devices.memory_total_bytes k.devices ≡ pages * 4096 % 2 ^ 64

kernel_startup-Knows :
    (m : Machine) (map : MemoryMap) (info : BootInfo)
    → info.memory_bytes ≡ total_memory map
    → Knows m map (kernel_startup m (some info) Kernel.loaded)
unfolding kernel_startup Devices.pic_disable Devices.memory_total_bytes
    Devices.memory_set_total_bytes Devices.acpi_set_rsdp Devices.memory_init Devices.acpi_init
kernel_startup-Knows m map info told =
    let (pages, counted, total) = total_memory-read_member map in
    record { trace = refl; pages = pages; counted = counted; memory = told ∙ total }

module _ (F : Firmware) (allocate_pages : ℕ → ℕ → F.World → ℕ × ℕ × F.World)
    (get_memory_map : F.World → MemoryMap × F.World)
    (exit_boot_services : ℕ → F.World → ℕ × F.World) (ready : Bool) (fresh : ℕ → List ℕ)
    (m : Machine) where
  abbrev S : Services
  S = exit_services F allocate_pages get_memory_map exit_boot_services ready fresh

  -- What efi_main does up to the end of the shell, from the loaded state.
  abbrev session : ℕ → List ℕ → F.World → Run F.World ℕ
  session fuel keys w =
      (do
        init_eosfs F allocate_pages get_memory_map exit_boot_services ready fresh
        init_accounts F allocate_pages get_memory_map exit_boot_services ready fresh
        modify (write boot_message)
        run_batch (execute_command F ready fresh fuel)
        Programs.login fresh
        run_shell (execute_command F ready fresh fuel) fresh)
        (loaded keys w)

  -- A state in which the shell is left.
  pub record IsShellLeft (fuel : ℕ) (keys : List ℕ) (w : F.World) (s : State F.World) : Type 0 where
    pub answer : ℕ
    pub reached : session fuel keys w ≡ done answer s

  -- The kernel was called, with its file, as the volume has it when the shell is left, at the address
  -- of the call and with the boot services left. `start` is the world in which the run began.
  pub record IsStarted (fuel : ℕ) (keys : List ℕ) (start : F.World) (info : BootInfo)
      (image : Option Image) (w : F.World) : Type 0 where
    pub before : State F.World
    pub shell_left : IsShellLeft fuel keys start before
    pub in_memory : Has (IsKernel F allocate_pages before.world) image
    pub exit : IsLeft S info.memory_bytes w
    pub halted : Kernel
    pub is_halted : started m (kernel info image) ≡ some halted
    pub knows : Knows m (S.get_memory_map exit.w).0 halted

  abbrev pub IsBooted : ℕ → List ℕ → F.World → Ending → F.World → Type 0
  IsBooted fuel keys start (kernel info image) w = IsStarted fuel keys start info image w
  IsBooted fuel keys start (returned status) w = status ≡ load_error

  Ends-self : {A : Type 0} (r : Run F.World A) → Ends (λ a t. r ≡ done a t) r
  Ends-self (done a s) = refl
  Ends-self waiting = tt
  Ends-self exhausted = tt

  Ends-both :
      {A : Type 0} (P Q : A → State F.World → Type 0) (r : Run F.World A)
      → Ends P r
      → Ends Q r
      → Ends (λ a t. P a t × Q a t) r
  Ends-both P Q (done a s) p q = (p, q)
  Ends-both P Q waiting p q = tt
  Ends-both P Q exhausted p q = tt

  module _ (fuel : ℕ) (keys : List ℕ) (start : F.World) where
    abbrev Booted : Ending → State F.World → Type 0
    Booted e t = IsBooted fuel keys start e t.world

    after_leaving-IsBooted :
        (r : Option (Outcome × F.World)) (image : Option Image) (s before : State F.World)
        → IsShellLeft fuel keys start before
        → Has (IsKernel F allocate_pages before.world) image
        → LeavesIfAny S r
        → Ends Booted
            (after_leaving F allocate_pages get_memory_map exit_boot_services ready fresh r image s)
    unfolding after_leaving fail write_line write started
    after_leaving-IsBooted none image s before reached h k = tt
    after_leaving-IsBooted (some (left total, w)) image s before reached h k = record {
      before = before;
      shell_left = reached;
      in_memory = h;
      exit = k;
      halted = kernel_startup m (some (record { rsdp = 0; memory_bytes = total })) Kernel.loaded;
      is_halted = refl;
      knows = kernel_startup-Knows m _ (record { rsdp = 0; memory_bytes = total }) k.total_is;
    }
    after_leaving-IsBooted (some (failed status, w)) image s before reached h k =
        let other : (status == 0) ≡ false = ground arith in rw other refl
    after_leaving-IsBooted (some (again, w)) image s before reached h k = tt

    start_kernel-IsBooted :
        (s : State F.World)
        → IsShellLeft fuel keys start s
        → IsSound F allocate_pages
        → HasSizes S
        → Ends Booted
            (start_kernel F allocate_pages get_memory_map exit_boot_services ready fresh fuel s)
    unfolding start_kernel fail write_line write
    start_kernel-IsBooted s reached sound sizes =
        let loaded_if = load_kernel-IsKernel F allocate_pages sound ready s.world in
        elim (Bool-cases ((load_kernel F allocate_pages ready s.world).0 == 0)) [
          | inl e ↦ rw e (
              after_leaving-IsBooted _ _ _ s reached (loaded_if (ground arith))
                (leave_boot_services-Leaves S ready fuel _ sizes))
          | inr e ↦ rw e refl
        ]

    efi_main-Ends :
        IsSound F allocate_pages
        → HasSizes S
        → Ends Booted (
            efi_main F allocate_pages get_memory_map exit_boot_services ready fresh fuel
              (loaded keys start))
    unfolding efi_main init_accounts init_eosfs
    efi_main-Ends sound sizes =
        let run = execute_command F ready fresh fuel in
        and_then-Ends (λ a t. run_batch run _ ≡ done a t) Booted (run_batch run _) _ (Ends-self _)
          (λ _ t batch.
            and_then-Ends (λ a u. Programs.login fresh t ≡ done a u) Booted (Programs.login fresh t)
              _ (Ends-self _)
              (λ _ u login.
                and_then-Ends (λ a v. run_shell run fresh u ≡ done a v) Booted
                  (run_shell run fresh u) _ (Ends-self _)
                  (λ a v shell.
                    start_kernel-IsBooted v
                      (record { answer = a; reached = rw (batch, login) shell }) sound sizes)))

  -- Where efi_main, started in the loaded state with CHAR16 values in the keys, comes to its end, a
  -- user of the table is signed in, and either EFI_LOAD_ERROR is returned or the kernel is called:
  -- then the megabyte at 0x200000 has the bytes that one read of the volume's `\kernel.bin`, opened
  -- when the shell was left, answered, at least one, and zeros after them, the boot services were left with the key of the
  -- map read just before, and the kernel, started on the boot record, halts with interrupts off and
  -- knows 4096 bytes for each usable page of that map, as a 64-bit number. The firmware succeeds
  -- only with pointers that are not null and descriptors of some size, its reads store no more than
  -- was asked for, pages asked for at an address are there, and what it reads and the stack holds
  -- are CHAR16 values.
  pub efi_main-IsBooted :
      (fuel : ℕ) (keys : List ℕ) (w : F.World)
      → IsChars keys
      → IsWide F fresh
      → IsSound F allocate_pages
      → HasSizes S
      → Ends
          (λ e t. IsSignedIn t.accounts × IsBooted fuel keys w e t.world)
          (efi_main F allocate_pages get_memory_map exit_boot_services ready fresh fuel
            (loaded keys w))
  efi_main-IsBooted fuel keys w chars wide sound sizes =
      Ends-both (λ e t. IsSignedIn t.accounts) (Booted fuel keys w) _
        (efi_main-IsSignedIn F allocate_pages get_memory_map exit_boot_services ready fresh wide
          keys w fuel chars)
        (efi_main-Ends fuel keys w sound sizes)
