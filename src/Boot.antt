-- ===== src/Boot.antt =====
-- Leaving the boot services: efi_leave_boot_services of OSC/boot/efi_main.c. GetMemoryMap and
-- ExitBootServices are the firmware's and a parameter.
pub mod Leaving
pub mod Left
pub mod Guard
pub mod Loaded
pub mod Settled
pub mod Loading
pub mod Main
pub mod Memory
pub mod Examples
use existent_os.Prelude.{
  ℕ, zero, suc, ◌+◌, ◌*◌, ◌/◌, ◌%◌, Bool, not, ◌||◌, List, Option, none, some, ◌==◌, if◌then◌else◌,
  drop,
}
use existent_os.Prelude.Bytes.{u32_at, u64_at}
use existent_os.Firmware.{is_error}

-- What GetMemoryMap returns and stores; `buffer` is what the loader's buffer holds afterwards.
pub record MemoryMap : Type 0 where
  pub status : ℕ
  pub size : ℕ
  pub key : ℕ
  pub descriptor_size : ℕ
  pub buffer : List ℕ

pub record Services : Type 1 where
  pub World : Type 0
  pub get_memory_map : World → MemoryMap × World
  pub exit_boot_services : ℕ → World → ℕ × World

-- EfiConventionalMemory, EfiLoaderCode, EfiLoaderData, EfiBootServicesCode, EfiBootServicesData.
unfoldable pub is_usable : ℕ → Bool
is_usable kind = kind == 7 || (kind == 1 || (kind == 2 || (kind == 3 || kind == 4)))

-- `*(EFI_MEMORY_DESCRIPTOR *)cursor`: the type at byte 0 and the number of pages at byte 24.
unfoldable pub add_descriptor : List ℕ → ℕ → ℕ
add_descriptor cursor total =
    if is_usable (u32_at cursor)
    then (total + u64_at (drop 24 cursor) * 4096) % 18446744073709551616
    else total

-- The loop over `count` descriptors from `cursor` on.
unfoldable pub sum_from : ℕ → ℕ → List ℕ → ℕ → ℕ
sum_from zero descriptor_size cursor total = total
sum_from (suc count) descriptor_size cursor total =
    sum_from count descriptor_size (drop descriptor_size cursor) (add_descriptor cursor total)

unfoldable pub total_memory : MemoryMap → ℕ
total_memory m = sum_from (m.size / m.descriptor_size) m.descriptor_size m.buffer 0

-- A return of the status, without or after the exit, or another round. `left` is EFI_SUCCESS, with the
-- number stored in the boot record and gBS cleared.
pub data Outcome : Type 0 where
  failed : ℕ → Outcome
  left : ℕ → Outcome
  again : Outcome

module _ (S : Services) where
  open S use {World, get_memory_map, exit_boot_services}

  -- ExitBootServices with the key of the map just read; 2 is EFI_INVALID_PARAMETER.
  unfoldable pub try_exit : MemoryMap → World → Outcome × World
  try_exit m w =
      let (status, w') = exit_boot_services m.key w in
      if status == 0
      then (Outcome.left (total_memory m), w')
      else if not (status == 2)
      then (Outcome.failed status, w')
      else (Outcome.again, w')

  -- One round of the loop.
  unfoldable pub round : World → Outcome × World
  round w =
      let (m, w') = get_memory_map w in
      if is_error m.status || m.descriptor_size == 0
      then (Outcome.failed m.status, w')
      else try_exit m w'

  unfoldable pub go_on : Outcome × World → Option (Outcome × World) → Option (Outcome × World)
  go_on (failed status, w) rest = some (Outcome.failed status, w)
  go_on (left total, w) rest = some (Outcome.left total, w)
  go_on (again, w) rest = rest

  -- `for (;;)` on fuel; `none` where it has not returned. `ready` is whether gBS and its two
  -- functions are set, and 21 is EFI_LOAD_ERROR.
  unfoldable pub rounds : ℕ → World → Option (Outcome × World)
  rounds zero w = none
  rounds (suc fuel) w = let rest = rounds fuel (round w).1 in go_on (round w) rest

  unfoldable pub leave_boot_services : Bool → ℕ → World → Option (Outcome × World)
  leave_boot_services ready fuel w =
      if not ready then some (Outcome.failed 21, w) else rounds fuel w
