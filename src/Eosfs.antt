-- ===== src/Eosfs.antt =====
-- The listing of the boot volume: the static variables of OSC/kernel/drivers/eosfs.c and its
-- functions.
pub mod Reading
pub mod Table
pub mod Listing
pub mod Disk
mod Examples
use existent_os.Prelude.{
  ℕ, ◌+◌, Bool, true, false, not, ◌&&◌, List, [], ◌∷◌, Option, none, some, ltb, leb, if◌then◌else◌,
  get_or, set, replicate,
}
use existent_os.Prelude.Int.{ℤ, pos, is_negative, to_ℕ}
use existent_os.Prelude.Scan.{store_from}
use existent_os.CString.{copy_upto}

pub data EntryType : Type 0 where
  dir : EntryType
  file : EntryType

-- `name` is an array of 16 cells.
pub record Entry : Type 0 where
  pub name : List ℕ
  pub kind : EntryType

-- `name` is an array of 36 cells, the identifiers are arrays of 16 bytes.
pub record Partition : Type 0 where
  pub partition_type_guid : List ℕ
  pub unique_partition_guid : List ℕ
  pub first_lba : ℕ
  pub last_lba : ℕ
  pub attributes : ℕ
  pub name : List ℕ

pub record GptHeader : Type 0 where
  pub signature : ℕ
  pub revision : ℕ
  pub header_size : ℕ
  pub current_lba : ℕ
  pub backup_lba : ℕ
  pub first_usable_lba : ℕ
  pub last_usable_lba : ℕ
  pub disk_guid : List ℕ
  pub partition_entry_lba : ℕ
  pub partition_entry_count : ℕ
  pub partition_entry_size : ℕ
  pub partition_crc32 : ℕ

pub record Eosfs : Type 0 where
  pub entries : List Entry
  pub partitions : List Partition
  pub gpt_header : GptHeader
  pub entry_count : ℕ
  pub partition_count : ℕ

abbrev pub max_entries : ℕ
max_entries = 32

abbrev pub max_partitions : ℕ
max_partitions = 4

-- Static storage before any write.
abbrev pub blank_entry : Entry
blank_entry = record { name = replicate 16 0; kind = EntryType.dir }

abbrev pub blank_partition : Partition
blank_partition = record {
  partition_type_guid = replicate 16 0;
  unique_partition_guid = replicate 16 0;
  first_lba = 0;
  last_lba = 0;
  attributes = 0;
  name = replicate 36 0;
}

abbrev blank_header : GptHeader
blank_header = record {
  signature = 0;
  revision = 0;
  header_size = 0;
  current_lba = 0;
  backup_lba = 0;
  first_usable_lba = 0;
  last_usable_lba = 0;
  disk_guid = replicate 16 0;
  partition_entry_lba = 0;
  partition_entry_count = 0;
  partition_entry_size = 0;
  partition_crc32 = 0;
}

abbrev pub loaded : Eosfs
loaded = record {
  entries = replicate max_entries blank_entry;
  partitions = replicate max_partitions blank_partition;
  gpt_header = blank_header;
  entry_count = 0;
  partition_count = 0;
}

unfoldable pub entry : Eosfs → ℕ → Entry
entry s i = get_or s.entries i blank_entry

unfoldable pub partition : Eosfs → ℕ → Partition
partition s i = get_or s.partitions i blank_partition

unfoldable pub add_entry : List ℕ → EntryType → Eosfs → Eosfs
add_entry name kind s = if leb max_entries s.entry_count then s else record s {
  entries =
      set s.entries s.entry_count
        (record { name = copy_upto 15 (entry s s.entry_count).name name; kind = kind });
  entry_count = s.entry_count + 1;
}

unfoldable pub add_partition : List ℕ → ℕ → ℕ → Eosfs → Eosfs
add_partition name start end s = if leb max_partitions s.partition_count then s else record s {
  partitions = set s.partitions s.partition_count (record (partition s s.partition_count) {
    name = copy_upto 35 (partition s s.partition_count).name name;
    first_lba = start;
    last_lba = end;
  });
  partition_count = s.partition_count + 1;
}

-- The texts that eosfs_init stores.
abbrev pub boot_name : List ℕ
boot_name = b'b' ∷ b'o' ∷ b'o' ∷ b't' ∷ 0 ∷ []

abbrev pub drivers_name : List ℕ
drivers_name = b'd' ∷ b'r' ∷ b'i' ∷ b'v' ∷ b'e' ∷ b'r' ∷ b's' ∷ 0 ∷ []

abbrev pub kernel_name : List ℕ
kernel_name = b'k' ∷ b'e' ∷ b'r' ∷ b'n' ∷ b'e' ∷ b'l' ∷ 0 ∷ []

abbrev pub mnt_name : List ℕ
mnt_name = b'm' ∷ b'n' ∷ b't' ∷ 0 ∷ []

abbrev pub text_name : List ℕ
text_name =
    b'e' ∷ b'x' ∷ b'i' ∷ b's' ∷ b't' ∷ b'e' ∷ b'n' ∷ b't' ∷ b'o' ∷ b's' ∷ b'.' ∷ b't' ∷ b'x' ∷ b't'
    ∷ 0 ∷ []

abbrev pub b_drive : List ℕ
b_drive = b'B' ∷ b':' ∷ b'/' ∷ b' ' ∷ b'E' ∷ b'O' ∷ b'S' ∷ b'F' ∷ b'S' ∷ 0 ∷ []

abbrev pub c_drive : List ℕ
c_drive = b'C' ∷ b':' ∷ b'/' ∷ b' ' ∷ b'E' ∷ b'O' ∷ b'S' ∷ b'F' ∷ b'S' ∷ 0 ∷ []

-- eosfs_init before it adds entries; the sizes are those of the structs on x86-64.
unfoldable pub reset : Eosfs → Eosfs
reset s = record s {
  entry_count = 0;
  partition_count = 0;
  gpt_header = record s.gpt_header {
    signature = 0x5452415020494645;
    revision = 0x00010000;
    header_size = 88;
    current_lba = 1;
    backup_lba = 0;
    first_usable_lba = 34;
    last_usable_lba = 0;
    partition_entry_lba = 2;
    partition_entry_count = 4;
    partition_entry_size = 128;
    partition_crc32 = 0;
  };
}

unfoldable pub add_entries : Eosfs → Eosfs
add_entries s = add_entry text_name EntryType.file (
    add_entry mnt_name EntryType.dir (
      add_entry kernel_name EntryType.dir
        (add_entry drivers_name EntryType.dir (add_entry boot_name EntryType.dir s))))

unfoldable pub init : Eosfs → Eosfs
init s = add_partition c_drive 2049 4096 (add_partition b_drive 34 2048 (add_entries (reset s)))

-- What the caller's pointers lead to, `none` where one of them is null.
pub record Place {ℓ} (A : Type ℓ) : Type ℓ where
  pub cells : List A
  pub count : ℤ

unfoldable pub is_positive : ℤ → Bool
is_positive n = not (is_negative n) && ltb 0 (to_ℕ n)

-- `*count = have; if (*count > max) *count = max; for (i = 0; i < *count; ++i) cells[i] = from(i);`
unfoldable pub copy_out {ℓ} : {A : Type ℓ} → (ℕ → A) → ℕ → ℕ → Place A → Place A
copy_out from have max p =
    let n = if ltb max have then max else have in
    record { cells = store_from n 0 from p.cells; count = pos n }

unfoldable pub list_partitions :
    Option (Place Partition) → ℤ → Eosfs → Bool × Option (Place Partition)
list_partitions none max s = (false, none)
list_partitions (some p) max s =
    if not (is_positive max)
    then (false, some p)
    else (true, some (copy_out (partition s) s.partition_count (to_ℕ max) p))

-- The header that the call stores, if any.
unfoldable pub get_gpt_header : Option GptHeader → Eosfs → Bool × Option GptHeader
get_gpt_header none s = (false, none)
get_gpt_header (some header) s = (true, some s.gpt_header)
