-- ===== src/Eosfs/Listing.antt =====
-- What callers read after eosfs_init where the listing comes from the built-in tables.
use existent_os.Prelude.{
  ℕ, ◌<◌, ◌≤◌, ◌≡◌, refl, sym, ◌∙◌, ap, true, false, List, some, arith, ltb, if◌then◌else◌, length,
  get_or, take,
}
use existent_os.Prelude.Int.{pos, to_ℕ}
use existent_os.Prelude.Scan.{segment, segment_eq, take-segment, get_or-store_from}
use existent_os.Firmware.{Firmware}
use existent_os.Eosfs.{
  Entry, Partition, Eosfs, Place, blank_entry, blank_partition, init, entry, partition, copy_out,
  is_positive, list_partitions,
}
use existent_os.Eosfs.Reading.{read_disk_entries, list_path}
use existent_os.Eosfs.Table.{
  Holds, IsSized, IsEntry, IsPartition, entry_view, partition_view, init-Tables, built_in,
  built_in_partitions,
}

-- The cells that the stored count covers.
abbrev pub read_out : {A V : Type 0} → (A → V) → A → Place A → List V
read_out view blank p = segment (λ i. view (get_or p.cells i blank)) (to_ℕ p.count) 0

-- A copy shows the first values of the table.
copy_out-Holds :
    {A V : Type 0} (IsCell : A → Type 0) (view : A → V) (blank : A) {room count : ℕ}
    {cells : List A} {values : List V}
    → Holds IsCell view blank room cells count values
    → (max : ℕ) (p : Place A) → max ≤ length p.cells
    → read_out view blank (copy_out (λ i. get_or cells i blank) count max p) ≡ take max values
unfolding copy_out
copy_out-Holds {A = A} IsCell view blank {count = count} {cells = cells} h max p room =
    segment_eq _ (λ i. view (get_or cells i blank)) n 0
      (λ k _ below. ap view (
        get_or-store_from n 0 k from p.cells blank (omega arith) (omega arith)
          (omega (arith, below, bound))))
    ∙ sym (take-segment max (λ i. view (get_or cells i blank)) count 0)
    ∙ ap (take max) h.shown
  where
    from : ℕ → A
    from i = get_or cells i blank

    n : ℕ
    n = if ltb max count then max else count

    bound : n ≤ max
    bound = ground arith

-- After eosfs_init, on tables of their declared sizes, a caller with room for `max` partitions, which
-- is positive, reads the first `max` of the two built-in
-- ones, whatever the tables held before.
pub list_partitions-init :
    {s : Eosfs}
    → IsSized s
    → (max : ℕ) (p : Place Partition) → 0 < max
    → max ≤ length p.cells
    → (p' : Place Partition) × (list_partitions (some p) (pos max) (init s) ≡ (true, some p'))
      × (read_out partition_view blank_partition p' ≡ take max built_in_partitions)
unfolding list_partitions is_positive partition
list_partitions-init {s} sized max p positive room =
    let bound : ltb 0 max ≡ true = ground arith in
    (
      copy_out (partition (init s)) (init s).partition_count max p,
      rw bound refl,
      copy_out-Holds IsPartition partition_view blank_partition
          ((init-Tables sized).partitions_hold) max p room,
    )

-- After eosfs_init, on tables of their declared sizes and while there are no boot services, a caller
-- with room for `max` entries, which is positive, reads the
-- first `max` of the five built-in ones, and the firmware is not called.
pub list_path-init :
    (F : Firmware) (buffer : List ℕ) (w : F.World) {s : Eosfs}
    → IsSized s
    → (max : ℕ) (p : Place Entry) → 0 < max
    → max ≤ length p.cells
    → (p' : Place Entry) × (list_path F false buffer (some p) (pos max) (init s) w
        ≡ (true, some p', w))
      × (read_out entry_view blank_entry p' ≡ take max built_in)
unfolding list_path read_disk_entries is_positive entry
list_path-init F buffer w {s} sized max p positive room =
    let bound : ltb 0 max ≡ true = ground arith in
    (
      copy_out (entry (init s)) (init s).entry_count max p,
      rw bound refl,
      copy_out-Holds IsEntry entry_view blank_entry ((init-Tables sized).entries_hold) max p room,
    )
