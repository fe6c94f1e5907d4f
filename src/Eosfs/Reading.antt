-- ===== src/Eosfs/Reading.antt =====
-- eosfs_read_disk_entries and eosfs_list_path: the root directory of the boot volume, and the tables where
-- it cannot be read.
use Prim.Native.Nat.{bit_and}
use existent_os.Prelude.{
  ℕ, zero, suc, ◌+◌, Bool, true, false, not, ◌||◌, List, ◌++◌, Option, none, some, ◌==◌,
  if◌then◌else◌, get_or, set, length, drop,
}
use existent_os.Prelude.Int.{ℤ, pos, to_ℕ}
use existent_os.Prelude.Bytes.{u32_at, chars_at}
use existent_os.CString.{copy_upto}
use existent_os.Firmware.{Firmware, is_error}
use existent_os.Eosfs.{EntryType, Entry, Eosfs, blank_entry, entry, Place, is_positive, copy_out}

-- A read of a directory leaves what the firmware says in the buffer, which is taken for the struct
-- EFI_FILE_INFO of boot/efi.h: the attributes at byte 24 and the name from byte 28 on, which are
-- 114 cells of the 256 bytes.
unfoldable pub entry_of : Entry → List ℕ → Entry
entry_of old buffer = record {
  name = copy_upto 15 old.name (chars_at 114 (drop 28 buffer));
  kind = if bit_and (u32_at (drop 24 buffer)) 0x10 == 0 then EntryType.file else EntryType.dir;
}

unfoldable pub has_name : List ℕ → Bool
has_name buffer = not (get_or (chars_at 1 (drop 28 buffer)) 0 0 == 0)

module _ (F : Firmware) where
  open F use {World, locate_protocol, open_volume, read, close}

  -- The loop, with its rounds left, the index, and the buffer that the rounds share.
  unfoldable pub read_rounds : ℕ → ℕ → ℕ → List ℕ → List Entry → World → ℕ × List Entry × World
  read_rounds zero index root buffer cells w = (index, cells, w)
  read_rounds (suc left) index root buffer cells w =
      let (status, bytes, w') = read root 256 w in
      let buffer' = bytes ++ drop (length bytes) buffer in
      let cells' = set cells index (entry_of (get_or cells index blank_entry) buffer') in
      let rest = read_rounds left (index + 1) root buffer' cells' w' in
      if is_error status || (length bytes == 0 || not (has_name buffer'))
      then (index, cells, w')
      else rest

  unfoldable pub read_root : ℕ → ℕ → List ℕ → Place Entry → World → Bool × Place Entry × World
  read_root max root buffer p w =
      let (index, cells, w') = read_rounds max 0 root buffer p.cells w in
      if index == 0
      then (false, record p { cells = cells }, close root w')
      else (true, record { cells = cells; count = pos index }, close root w')

  unfoldable pub read_volume : ℕ → ℕ → List ℕ → Place Entry → World → Bool × Place Entry × World
  read_volume max fs buffer p w =
      let (status, root, w') = open_volume fs w in
      if is_error status || root == 0 then (false, p, w') else read_root max root buffer p w'

  -- `ready` is whether gBS is set, and `buffer` is what the stack held.
  unfoldable pub read_disk_entries :
      Bool → List ℕ → Place Entry → ℤ → World → Bool × Place Entry × World
  read_disk_entries ready buffer p max w =
      let (status, fs, w') = locate_protocol w in
      if not ready || not (is_positive max)
      then (false, p, w)
      else if is_error status || fs == 0
      then (false, p, w')
      else read_volume (to_ℕ max) fs buffer p w'

  unfoldable pub list_path :
      Bool → List ℕ → Option (Place Entry) → ℤ → Eosfs → World → Bool × Option (Place Entry) × World
  list_path ready buffer none max s w = (false, none, w)
  list_path ready buffer (some p) max s w =
      let (found, p', w') = read_disk_entries ready buffer p max w in
      if not (is_positive max)
      then (false, some p, w)
      else if found
      then (true, some p', w')
      else (true, some (copy_out (entry s) s.entry_count (to_ℕ max) p'), w')
