-- ===== src/Shell/State.antt =====
-- The static variables of the terminal in OSC/boot/efi_main.c, with those of accounts.c and eosfs.c,
-- and its functions that neither read a key nor open a file. `keys` holds the characters that the
-- calls of ReadKeyStroke leave from here on, and `written` the texts given to OutputString, the
-- latest first. The console protocols are taken to be there.
use existent_os.Prelude.{
  ℕ, Bool, true, false, ◌&&◌, ◌||◌, List, [], ◌∷◌, ◌++◌, Option, none, some, leb, ◌==◌,
  if◌then◌else◌, get_or, set, take, replicate,
}
use existent_os.Prelude.Int.{pos, to_ℕ}
use existent_os.CString.{text, chars}
use existent_os.Firmware.{Firmware}
use existent_os.Accounts.State as Accounts
use existent_os.Eosfs
use existent_os.Eosfs.Reading
use existent_os.Eosfs.{Eosfs, Entry, EntryType, Place}
use existent_os.Terminal.{max_line}

pub data Mode : Type 0 where
  batch : Mode
  bash : Mode

pub record State (World : Type 0) : Type 0 where
  pub mode : Mode
  pub echo_enabled : Bool
  pub current_drive : ℕ
  pub current_path : List ℕ
  pub line : List ℕ
  pub accounts : Accounts.State
  pub eosfs : Eosfs
  pub keys : List ℕ
  pub written : List (List ℕ)
  pub world : World

abbrev pub loaded : {World : Type 0} → List ℕ → World → State World
loaded keys world = record {
  mode = Mode.batch;
  echo_enabled = true;
  current_drive = b'B';
  current_path = b'B' ∷ b':' ∷ b'/' ∷ replicate 125 0;
  line = replicate max_line 0;
  accounts = Accounts.initial;
  eosfs = Eosfs.loaded;
  keys = keys;
  written = [];
  world = world;
}

module _ {World : Type 0} where
  unfoldable pub write : List ℕ → State World → State World
  write t s = record s { written = text t ∷ s.written }

  unfoldable pub write_line : List ℕ → State World → State World
  write_line t s = write (13 ∷ 10 ∷ []) (write t s)

  unfoldable pub set_drive : ℕ → State World → State World
  set_drive drive s =
      if drive == b'B' || drive == b'C'
      then record s {
        current_drive = drive;
        current_path = set (set (set (set s.current_path 0 drive) 1 b':') 2 b'/') 3 0;
      }
      else s

  unfoldable pub current_prompt : State World → List ℕ
  current_prompt s =
      s.current_drive ∷ chars ":/ "
      ++ (elim s.mode [ Mode.bash ↦ chars "bash" | Mode.batch ↦ chars "batch" ] ++ chars "> ")

  unfoldable pub set_mode : Mode → State World → State World
  set_mode mode s = record s { mode = mode; echo_enabled = true }

  -- `for (i = start_index; i < argc; ++i)` on the arguments from `start_index` on; `first` is whether
  -- no argument has been written yet.
  unfoldable pub write_arg_list : Bool → List (List ℕ) → State World → State World
  write_arg_list first [] s = s
  write_arg_list first (a ∷ args) s =
      write_arg_list false args (write a (if first then s else write (chars " ") s))

  -- One line of the listing.
  unfoldable pub write_entry : Entry → State World → State World
  write_entry e s = write_line [] (
      write (elim e.kind [ EntryType.dir ↦ chars "<dir>" | EntryType.file ↦ chars "<file>" ])
        (write (chars " ") (write e.name s)))

  unfoldable pub write_entries : List Entry → State World → State World
  write_entries [] s = s
  write_entries (e ∷ entries) s = write_entries entries (write_entry e s)

-- `path && path[0] >= 'A' && path[0] <= 'Z' && path[1] == ':'`, with the drive stored.
unfoldable pub drive_prefix : List ℕ → Option ℕ
drive_prefix path =
    if leb b'A' (get_or path 0 0) && leb (get_or path 0 0) b'Z' && get_or path 1 0 == b':'
    then some (get_or path 0 0)
    else none

-- `fresh n` is what an array of `n` cells on the stack holds, and `ready` whether gBS is set.
module _ (F : Firmware) (ready : Bool) (fresh : ℕ → List ℕ) where
  -- terminal_show_drive_root after a successful listing.
  unfoldable pub show_listing : ℕ → Place Entry → State F.World → State F.World
  show_listing drive place s = write_entries (take (to_ℕ place.count) place.cells) (
      write_line
        (if drive == b'C'
          then chars "C:/ - GPT disk partition"
          else chars "B:/ - GPT disk partition")
        s)

  unfoldable pub show_outcome :
      ℕ → Bool × Option (Place Entry) × F.World → State F.World → State F.World
  show_outcome drive (true, some place, w) s = show_listing drive place (record s { world = w })
  show_outcome drive (_, _, w) s =
      write_line (chars "file system unavailable") (record s { world = w })

  unfoldable pub show_drive_root : ℕ → State F.World → State F.World
  show_drive_root drive s =
      let entries : Place Entry = record {
        cells = replicate Eosfs.max_entries (record { name = fresh 16; kind = EntryType.dir });
        count = pos 0;
      } in
      show_outcome drive
        (Reading.list_path F ready (fresh 256) (some entries) (pos Eosfs.max_entries) s.eosfs
          s.world)
        s
