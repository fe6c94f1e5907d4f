-- ===== src/Boot/Examples.antt =====
-- Leaving the boot services on concrete firmware.
use existent_os.Prelude.{
  ℕ, zero, suc, ◌-◌, ◌<◌, ◌≡◌, refl, true, false, Option, none, List, [], ◌∷◌, ◌++◌, some,
  All-replicate, arith, ◌==◌, if◌then◌else◌, replicate, take,
}
use existent_os.Prelude.Bytes.{u32_at, u64_at}
use existent_os.Boot.{
  MemoryMap, Services, is_usable, add_descriptor, sum_from, total_memory, try_exit, round,
  leave_boot_services,
}
use existent_os.CString.{chars}
use existent_os.Firmware.{Firmware}
use existent_os.Firmware.ReadOnly.{read_only, All-take, read_within}
use existent_os.Boot.Loading.{
  zeroed, overwritten, load_kernel, load_from, load_in, load_opened, fill,
}
use existent_os.Boot.Main.{start_kernel, efi_main}
use existent_os.Boot.Guard.{IsSignedIn, efi_main-IsSignedIn}
use existent_os.Boot.Settled.{Settles}
use existent_os.Boot.Loaded.{IsSound, IsSafe, EndsIn, exit_services, start_kernel-IsSafe}
use existent_os.Shell.State.{loaded}
use existent_os.Shell.Kept.{IsWide, Ends}
use existent_os.Eosfs
use existent_os.Eosfs.Reading
use existent_os.Accounts.State as Accounts
use existent_os.Accounts.Image.{store_at}
use existent_os.CString.{equal, copy_upto, copy_from}
use existent_os.Prelude.Scan.{first_index, store_from}
use existent_os.Firmware.OpenFile.{open_file}
use existent_os.Kernel.{BootInfo}
use existent_os.Boot.Loading.{Image}
use existent_os.Boot.{rounds, go_on}
use existent_os.Boot.Main.{Ending, kernel, returned, init_eosfs, init_accounts, after_leaving}
use existent_os.Terminal as Text
use existent_os.Terminal.{match_command, parse_command, arguments, split_line, read_keys, take_key}
use existent_os.Terminal.Segments.{cut, command_args, skip_word, skip_spaces}
use existent_os.Shell.State.{
  write, write_line, current_prompt, drive_prefix, show_drive_root, show_outcome, show_listing,
  write_entries, write_entry,
}
use existent_os.Shell.Run.{Run, done, waiting, exhausted, read_line}
use existent_os.Shell.Commands.{command_of, first_match}
use existent_os.Shell.Programs.{sign_in, read_secret, try_login, login_round, login_rounds, login}
use existent_os.Shell.Replies.{try_pipeline, parse, print_lines, switch_echo_to, choose_drive}
use existent_os.Shell.Execute.{execute_command, execute_step, run_single, perform, list_directory}
use existent_os.Shell.Session.{
  run_batch, run_batch_lines, batch_lines, run_shell, shell_rounds, shell_round,
}
use existent_os.Boot.Leaving.{is_final, after}

-- One descriptor of 48 bytes: two pages of conventional memory.
abbrev pub one_descriptor : MemoryMap
one_descriptor = record {
  status = 0;
  size = 48;
  key = 5;
  descriptor_size = 48;
  buffer = 7 ∷ (replicate 23 0 ++ (2 ∷ replicate 23 0));
}

-- Firmware whose map is stale as many times as the world says.
abbrev stale_map : Services
stale_map = record {
  World = ℕ;
  get_memory_map = λ w. (one_descriptor, w);
  exit_boot_services = λ key w. if w == 0 then (0, 0) else (2, w - 1);
}

first_is_stale : (j : ℕ) → j < 1 → is_final (round stale_map (after stale_map j 1)).0 ≡ false
unfolding round try_exit
first_is_stale zero h = refl
first_is_stale (suc j) h = absurd (omega arith)

second_is_final : is_final (round stale_map (after stale_map 1 1)).0 ≡ true
unfolding round try_exit
second_is_final = refl

-- Memory at the address that is asked for.
abbrev pub pages_at : ℕ → ℕ → Unit {0} → ℕ × ℕ × Unit {0}
pages_at pages address w = (0, address, w)

abbrev pub kernel_bytes : List ℕ
kernel_bytes = 0x90 ∷ 0xf4 ∷ []

abbrev pub kernel_volume : Firmware
kernel_volume = read_only kernel_bytes

pub read_only-IsSound : (bytes : List ℕ) → IsSound (read_only bytes) pages_at
read_only-IsSound bytes = record {
  located = λ w ok. omega arith;
  volume = λ fs w ok. omega arith;
  opened = λ root path mode attributes w ok. omega arith;
  within = λ file size w. read_within size bytes;
  placed = λ pages address w ok. refl;
}

pub kernel_volume-IsWide : IsWide kernel_volume (λ n. replicate n 0)
kernel_volume-IsWide = record {
  file_bytes = λ file size w. All-take (λ c. c < 65536) size kernel_bytes (omega arith);
  stack = λ n. All-replicate (λ c. c < 65536) n 0 (omega arith);
}

-- "admin", "fisix" and "exit".
abbrev pub typed_keys : List ℕ
typed_keys = chars "admin" ++ (13 ∷ (chars "fisix" ++ (13 ∷ (chars "exit" ++ (13 ∷ [])))))

efi_main-IsSignedIn_example :
    Ends
      (λ e t. IsSignedIn t.accounts)
      (efi_main kernel_volume pages_at
        (λ w. (one_descriptor, w))
        (λ key w. (0, w))
        true
        (λ n. replicate n 0)
        3
        (loaded typed_keys tt))
efi_main-IsSignedIn_example =
    efi_main-IsSignedIn kernel_volume pages_at (λ w. (one_descriptor, w)) (λ key w. (0, w)) true
      (λ n. replicate n 0) kernel_volume-IsWide typed_keys tt 3 (omega arith)

abbrev kernel_services : Services
kernel_services =
    exit_services kernel_volume pages_at (λ w. (one_descriptor, w)) (λ key w. (0, w)) true
      (λ n. replicate n 0)

kernel_services-Settles : Settles kernel_services 1
unfolding round try_exit
kernel_services-Settles = record {
  stale = λ w. 0;
  few = λ w. omega arith;
  before = λ w j below. absurd (omega arith);
  final = λ w. refl;
}

start_kernel-IsSafe_example : EndsIn (IsSafe kernel_volume pages_at tt) (
    start_kernel kernel_volume pages_at
      (λ w. (one_descriptor, w))
      (λ key w. (0, w))
      true
      (λ n. replicate n 0)
      3
      (loaded [] tt))
start_kernel-IsSafe_example =
    start_kernel-IsSafe kernel_volume pages_at (λ w. (one_descriptor, w)) (λ key w. (0, w)) true
      (λ n. replicate n 0) 1 3 (loaded [] tt) (read_only-IsSound kernel_bytes)
      kernel_services-Settles (omega arith)

-- The address of an image and the first four of its bytes.
abbrev start_of : Option Image → Option (ℕ × List ℕ)
start_of none = none
start_of (some image) = some (image.address, take 4 image.bytes)

-- What is loaded is the file, with zeros after it, at the address of the call.
kernel_loaded :
    start_of (load_kernel kernel_volume pages_at true tt).1
    ≡ some (0x200000, 0x90 ∷ 0xf4 ∷ 0 ∷ 0 ∷ [])
unfolding overwritten zeroed load_kernel load_from load_in load_opened fill
kernel_loaded = refl

-- The record that the kernel is called with, and the start of the image.
abbrev entered : Run (Unit {0}) Ending → Option (BootInfo × Option (ℕ × List ℕ))
entered (done (kernel info image) s) = some (info, start_of image)
entered (done (returned status) s) = none
entered waiting = none
entered exhausted = none

-- A whole run: the administrator signs in and leaves the shell, and the kernel is called.
kernel_called :
    entered (
      efi_main kernel_volume pages_at
        (λ w. (one_descriptor, w))
        (λ key w. (0, w))
        true
        (λ n. replicate n 0)
        3
        (loaded typed_keys tt))
    ≡ some (record { rsdp = 0; memory_bytes = 8192 }, some (0x200000, 0x90 ∷ 0xf4 ∷ 0 ∷ 0 ∷ []))
unfolding efi_main init_eosfs init_accounts run_batch run_batch_lines batch_lines write_line write
    current_prompt execute_command execute_step parse parse_command split_line arguments copy_upto
    copy_from cut run_single try_pipeline command_of first_match match_command perform command_args
    skip_word skip_spaces Eosfs.init Accounts.init Accounts.load Accounts.load_from Accounts.reset
    Accounts.accounts_open open_file Accounts.copy Accounts.account Accounts.is_store store_at
    print_lines switch_echo_to list_directory choose_drive drive_prefix show_drive_root show_outcome
    show_listing write_entries write_entry Reading.list_path Reading.read_disk_entries
    Reading.read_volume Reading.read_root Reading.read_rounds Reading.has_name Reading.entry_of
    Eosfs.copy_out Eosfs.is_positive Eosfs.add_entries Eosfs.add_entry Eosfs.add_partition
    Eosfs.reset store_from login login_rounds login_round try_login read_secret sign_in
    Accounts.login Accounts.sign_in Accounts.credentials_match equal first_index read_line
    Text.read_line read_keys take_key run_shell shell_rounds shell_round start_kernel after_leaving
    load_kernel load_from load_in load_opened fill overwritten zeroed leave_boot_services rounds
    go_on round try_exit total_memory sum_from add_descriptor is_usable u32_at u64_at
kernel_called = refl
