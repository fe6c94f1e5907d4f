-- ===== src/Eosfs/Table.antt =====
-- What the tables of eosfs.c hold: their view as lists, and the tables that eosfs_init leaves.
use existent_os.Prelude.{
  ℕ, suc, ◌+◌, ◌<◌, ◌≡◌, refl, sym, ◌∙◌, ap, ap₂, false, List, [], ◌∷◌, ◌++◌, arith, leb, length,
  get_or, set, take, All, All-set, All-get_or, length-set, length-append, get_or-set_ne,
  get_or-set_self,
}
use existent_os.Prelude.Scan.{segment, segment-suc, segment_eq}
use existent_os.CString.{text, copy_upto}
use existent_os.CString.Laws.{text-copy_upto, length-copy_upto}
use existent_os.Eosfs.{
  EntryType, Entry, Partition, Eosfs, max_entries, max_partitions, blank_entry, blank_partition,
  entry, partition, add_entry, add_partition, add_entries, reset, init, boot_name, drivers_name,
  kernel_name, mnt_name, text_name, b_drive, c_drive,
}

-- An array of `room` cells of which the first `count` are in use and read as `shown`.
module _ {A V : Type 0} (IsCell : A → Type 0) (view : A → V) (blank : A) where
  pub record Holds (room : ℕ) (cells : List A) (count : ℕ) (values : List V) : Type 0 where
    pub size : length cells ≡ room
    pub cell : All IsCell cells
    pub used : count ≡ length values
    pub shown : segment (λ i. view (get_or cells i blank)) count 0 ≡ values

  hold_one_more :
      {room count : ℕ} {cells : List A} {values : List V}
      → Holds room cells count values
      → length values < room
      → (a : A) → IsCell a
      → Holds room (set cells count a) (count + 1) (values ++ (view a ∷ []))
  hold_one_more {room} {count} {cells} {values} h free a c = record {
    size = length-set cells count a ∙ h.size;
    cell = All-set IsCell cells count a h.cell c;
    used = omega (arith, h.used, length-append values (view a ∷ []));
    shown = one_more;
  }
    where
      cells' : List A
      cells' = set cells count a

      seen : ℕ → V
      seen i = view (get_or cells' i blank)

      old : segment seen count 0 ≡ segment (λ i. view (get_or cells i blank)) count 0
      old =
          segment_eq _ _ count 0
            (λ k _ below. ap view (get_or-set_ne cells count k a blank (omega arith)))

      last : seen (0 + count) ≡ view a
      last =
          ap seen (omega arith)
          ∙ ap view (get_or-set_self cells count a blank (omega (arith, h.size, h.used)))

      one_more : segment seen (count + 1) 0 ≡ values ++ (view a ∷ [])
      one_more =
          ap (λ (n : ℕ). segment seen n 0) {y = suc count} (omega arith)
          ∙ segment-suc seen count 0
          ∙ ap₂ (λ vs v. vs ++ (v ∷ [])) (old ∙ h.shown) last

abbrev pub IsEntry : Entry → Type 0
IsEntry e = length e.name ≡ 16

abbrev pub IsPartition : Partition → Type 0
IsPartition p = length p.name ≡ 36

-- An entry and a partition as a reader sees them.
abbrev pub entry_view : Entry → List ℕ × EntryType
entry_view e = (text e.name, e.kind)

abbrev pub partition_view : Partition → List ℕ × ℕ × ℕ
partition_view p = (text p.name, p.first_lba, p.last_lba)

-- The entries and the partitions in use.
pub record Tables (s : Eosfs) (entries : List (List ℕ × EntryType))
    (partitions : List (List ℕ × ℕ × ℕ)) : Type 0 where
  pub entries_hold :
      Holds IsEntry entry_view blank_entry max_entries s.entries s.entry_count entries
  pub partitions_hold :
      Holds IsPartition partition_view blank_partition max_partitions s.partitions s.partition_count
        partitions

add_entry-Tables :
    {s : Eosfs} {entries : List (List ℕ × EntryType)} {partitions : List (List ℕ × ℕ × ℕ)}
    → Tables s entries partitions
    → length entries < max_entries
    → (name : List ℕ) (kind : EntryType)
    → Tables (add_entry name kind s) (entries ++ ((take 15 (text name), kind) ∷ [])) partitions
unfolding add_entry entry
add_entry-Tables {s} {entries} {partitions} t free name kind =
    let room : leb max_entries s.entry_count ≡ false = ground (arith, t.entries_hold.used) in
    rw room (record { entries_hold = pushed; partitions_hold = t.partitions_hold })
  where
    old : List ℕ
    old = (entry s s.entry_count).name

    sixteen : length old ≡ 16
    sixteen = All-get_or IsEntry s.entries s.entry_count blank_entry t.entries_hold.cell refl

    stored : text (copy_upto 15 old name) ≡ take 15 (text name)
    stored = text-copy_upto 15 old name (omega (arith, sixteen))

    pushed :
        Holds IsEntry entry_view blank_entry max_entries
          (set s.entries s.entry_count (record { name = copy_upto 15 old name; kind = kind }))
          (s.entry_count + 1)
          (entries ++ ((take 15 (text name), kind) ∷ []))
    pushed = rw (sym stored) (
        hold_one_more IsEntry entry_view blank_entry t.entries_hold free
          (record { name = copy_upto 15 old name; kind = kind })
          (length-copy_upto 15 old name ∙ sixteen))

add_partition-Tables :
    {s : Eosfs} {entries : List (List ℕ × EntryType)} {partitions : List (List ℕ × ℕ × ℕ)}
    → Tables s entries partitions
    → length partitions < max_partitions
    → (name : List ℕ) (start end : ℕ)
    → Tables
        (add_partition name start end s)
        entries
        (partitions ++ ((take 35 (text name), start, end) ∷ []))
unfolding add_partition partition
add_partition-Tables {s} {entries} {partitions} t free name start end =
    let room : leb max_partitions s.partition_count ≡ false =
      ground (arith, t.partitions_hold.used) in
    rw room (record { entries_hold = t.entries_hold; partitions_hold = pushed })
  where
    old : Partition
    old = partition s s.partition_count

    cells : length old.name ≡ 36
    cells =
        All-get_or IsPartition s.partitions s.partition_count blank_partition t.partitions_hold.cell
          refl

    new : Partition
    new = record old { name = copy_upto 35 old.name name; first_lba = start; last_lba = end }

    stored : text (copy_upto 35 old.name name) ≡ take 35 (text name)
    stored = text-copy_upto 35 old.name name (omega (arith, cells))

    pushed :
        Holds IsPartition partition_view blank_partition max_partitions
          (set s.partitions s.partition_count new)
          (s.partition_count + 1)
          (partitions ++ ((take 35 (text name), start, end) ∷ []))
    pushed = rw (sym stored) (
        hold_one_more IsPartition partition_view blank_partition t.partitions_hold free new
          (length-copy_upto 35 old.name name ∙ cells))

-- Arrays of their declared sizes, the state of every call after loading.
pub record IsSized (s : Eosfs) : Type 0 where
  pub entries_size : length s.entries ≡ max_entries
  pub entries_cells : All IsEntry s.entries
  pub partitions_size : length s.partitions ≡ max_partitions
  pub partitions_cells : All IsPartition s.partitions

-- The entries and partitions of a fresh start.
abbrev pub built_in : List (List ℕ × EntryType)
built_in =
    (text boot_name, EntryType.dir)
    ∷ (text drivers_name, EntryType.dir)
    ∷ (text kernel_name, EntryType.dir)
    ∷ (text mnt_name, EntryType.dir)
    ∷ (text text_name, EntryType.file)
    ∷ []

abbrev pub built_in_partitions : List (List ℕ × ℕ × ℕ)
built_in_partitions = (text b_drive, 34, 2048) ∷ (text c_drive, 2049, 4096) ∷ []

-- On arrays of their declared sizes eosfs_init leaves the same five entries and two partitions,
-- whatever was in the arrays before.
pub init-Tables : {s : Eosfs} → IsSized s → Tables (init s) built_in built_in_partitions
unfolding init add_entries reset
init-Tables {s} sized = drives
  where
    empty : Tables (reset s) [] []
    empty = record {
      entries_hold = record {
        size = sized.entries_size;
        cell = sized.entries_cells;
        used = refl;
        shown = refl;
      };
      partitions_hold = record {
        size = sized.partitions_size;
        cell = sized.partitions_cells;
        used = refl;
        shown = refl;
      };
    }

    files : Tables (add_entries (reset s)) built_in []
    files =
        let one = add_entry-Tables empty (omega arith) boot_name EntryType.dir in
        let two = add_entry-Tables one (omega arith) drivers_name EntryType.dir in
        let three = add_entry-Tables two (omega arith) kernel_name EntryType.dir in
        let four = add_entry-Tables three (omega arith) mnt_name EntryType.dir in
        add_entry-Tables four (omega arith) text_name EntryType.file

    drives : Tables (init s) built_in built_in_partitions
    drives =
        add_partition-Tables (add_partition-Tables files (omega arith) b_drive 34 2048)
          (omega arith) c_drive 2049 4096
