-- ===== src/Boot/Main.antt =====
-- efi_main of OSC/boot/efi_main.c: the whole run of the loader, up to the kernel's entry.
use existent_os.Prelude.{ℕ, Bool, List, [], ◌∷◌, ◌++◌, Option, none, some, ◌==◌, if◌then◌else◌}
use existent_os.CString.{chars}
use existent_os.Firmware.{Firmware}
use existent_os.Accounts.State as Accounts
use existent_os.Eosfs
use existent_os.Kernel.{BootInfo}
use existent_os.Boot.{MemoryMap, Services, Outcome, failed, left, again, leave_boot_services}
use existent_os.Boot.Loading.{Image, load_kernel, load_error}
use existent_os.Shell.State.{write, write_line}
use existent_os.Shell.Run.{done, exhausted, Action, ◌>>◌, return, modify}
use existent_os.Shell.Programs
use existent_os.Shell.Execute.{execute_command}
use existent_os.Shell.Session.{run_batch, run_shell}

-- How the loader ends: by the call of the kernel, with what was loaded, or by a return.
pub data Ending : Type 0 where
  kernel : BootInfo → Option Image → Ending
  returned : ℕ → Ending

abbrev pub boot_message : List ℕ
boot_message = chars "Fisix OS EFI boot" ++ (13 ∷ 10 ∷ [])

module _ (F : Firmware) (allocate_pages : ℕ → ℕ → F.World → ℕ × ℕ × F.World)
    (get_memory_map : F.World → MemoryMap × F.World)
    (exit_boot_services : ℕ → F.World → ℕ × F.World) (ready : Bool) (fresh : ℕ → List ℕ) where
  open F use {World}

  abbrev pub services : Services
  services = record {
    World = World;
    get_memory_map = get_memory_map;
    exit_boot_services = exit_boot_services;
  }

  unfoldable pub init_accounts : Action World (Unit {0})
  init_accounts s =
      let (accounts, w) = Accounts.init F ready s.accounts s.world in
      done tt (record s { accounts = accounts; world = w })

  unfoldable pub init_eosfs : Action World (Unit {0})
  init_eosfs s = done tt (record s { eosfs = Eosfs.init s.eosfs })

  unfoldable pub fail : Action World Ending
  fail s = done (returned load_error) (write_line (chars "failed to start kernel") s)

  -- The status of efi_leave_boot_services and the boot record after it, which held zeros.
  unfoldable pub after_leaving : Option (Outcome × World) → Option Image → Action World Ending
  after_leaving none image s = exhausted
  after_leaving (some (left total, w)) image s =
      done (kernel (record { rsdp = 0; memory_bytes = total }) image) (record s { world = w })
  after_leaving (some (failed status, w)) image s =
      (if status == 0 then return (kernel (record { rsdp = 0; memory_bytes = 0 }) image) else fail)
        (record s { world = w })
  after_leaving (some (again, w)) image s = exhausted

  unfoldable pub start_kernel : ℕ → Action World Ending
  start_kernel fuel s =
      let (status, image, w) = load_kernel F allocate_pages ready s.world in
      let s' = record s { world = w } in
      if status == 0
      then after_leaving (leave_boot_services services ready fuel w) image s'
      else fail s'

  -- `fuel` bounds the nesting of scripts, the reads of `cat` and the rounds of the exit.
  unfoldable pub efi_main : ℕ → Action World Ending
  efi_main fuel = do
    init_eosfs
    init_accounts
    modify (write boot_message)
    run_batch (execute_command F ready fresh fuel)
    Programs.login fresh
    run_shell (execute_command F ready fresh fuel) fresh
    start_kernel fuel
