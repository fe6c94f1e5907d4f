-- ===== src/Eosfs/Disk.antt =====
-- Listing the volume: whatever the firmware answers, the caller's array is used within its bound.
use existent_os.Prelude.{
  drop-set, ℕ, zero, suc, ◌+◌, ◌<◌, ◌≤◌, ◌≡◌, refl, ◌∙◌, ap, Bool, true, false, not, ◌||◌, List,
  ◌++◌, Option, some, arith, Bool-cases, ◌⊎◌, inl, inr, ltb, ◌==◌, if◌then◌else◌, length, get_or,
  set, drop, All, All-set, All-get_or, length-set, length-take,
}
use mathlib.Core.Path.{subst}
use existent_os.Prelude.Int.{pos}
use existent_os.Prelude.Scan.{store_from, length-store_from}
use existent_os.Prelude.Bytes.{chars_at}
use existent_os.CString.{text}
use existent_os.CString.Laws.{text-copy_upto, length-copy_upto}
use existent_os.Firmware.{Firmware, is_error}
use existent_os.Eosfs.{Entry, Eosfs, Place, blank_entry, entry, is_positive, copy_out}
use existent_os.Eosfs.Reading.{
  entry_of, has_name, read_rounds, read_root, read_volume, read_disk_entries, list_path,
}

drop-store_from {ℓ} :
    {A : Type ℓ} (m n i : ℕ) (f : ℕ → A) (to : List A)
    → i + n ≤ m
    → drop m (store_from n i f to) ≡ drop m to
unfolding store_from
drop-store_from m zero i f to h = refl
drop-store_from m (suc n) i f to h =
    drop-store_from m n (i + 1) f (set to i (f i)) (omega arith)
    ∙ drop-set m i to (f i) (omega arith)

All-store_from {ℓ} :
    {A : Type ℓ} (P : A → Type 0) (n i : ℕ) (f : ℕ → A) (to : List A)
    → ((k : ℕ) → P (f k))
    → All P to
    → All P (store_from n i f to)
unfolding store_from
All-store_from P zero i f to each all = all
All-store_from P (suc n) i f to each all =
    All-store_from P n (i + 1) f (set to i (f i)) each (All-set P to i (f i) all (each i))

-- A name array of 16 cells with a string in it, which ends within the array.
pub record IsNamed (e : Entry) : Type 0 where
  pub sixteen : length e.name ≡ 16
  pub ended : length (text e.name) < 16

-- An array after writes below `bound`: no cell beyond is touched, and every name ends in its array.
pub record Kept (bound : ℕ) (before after : List Entry) : Type 0 where
  pub size : length after ≡ length before
  pub beyond : drop bound after ≡ drop bound before
  pub cell : All IsNamed after

-- A name of the disk is cut so that it ends in its array.
entry_of-IsNamed : (old : Entry) (buffer : List ℕ) → IsNamed old → IsNamed (entry_of old buffer)
unfolding entry_of
entry_of-IsNamed old buffer h =
    let from = chars_at 114 (drop 28 buffer) in
    let copied = text-copy_upto 15 old.name from (omega (arith, h.sixteen)) in
    record {
      sixteen = length-copy_upto 15 old.name _ ∙ h.sixteen;
      ended = rw copied (omega (arith, length-take 15 (text from)));
    }

blank-IsNamed : IsNamed blank_entry
blank-IsNamed = record { sixteen = refl; ended = omega arith }

module _ (F : Firmware) where
  -- The rounds of the reading loop stay within the bound and count up to it.
  read_rounds-Kept :
      (left index root : ℕ) (buffer : List ℕ) (cells : List Entry) (w : F.World)
      → All IsNamed cells
      → let r = read_rounds F left index root buffer cells w in
        Kept (index + left) cells r.1 × (r.0 ≤ index + left)
  unfolding read_rounds
  read_rounds-Kept zero index root buffer cells w all =
      (record { size = refl; beyond = refl; cell = all }, omega arith)
  read_rounds-Kept (suc left) index root buffer cells w all =
      elim (Bool-cases (is_error answer.0 || (length answer.1 == 0 || not (has_name buffer')))) [
        | inl e ↦ rw e (record { size = refl; beyond = refl; cell = all }, omega arith)
        | inr e ↦
            let (kept, below) =
              read_rounds-Kept left (index + 1) root buffer' cells' answer.2 (all_set) in
            rw e (
              record {
                size = kept.size ∙ length-set cells index _;
                beyond =
                    ap (λ (n : ℕ). drop n later.1) {x = index + suc left} {y = index + 1 + left}
                      (omega arith)
                    ∙ kept.beyond
                    ∙ drop-set (index + 1 + left) index cells _ (omega arith)
                    ∙ ap (λ (n : ℕ). drop n cells) {y = index + suc left} (omega arith);
                cell = kept.cell;
              },
              omega (arith, below),
            )
      ]
    where
      answer : ℕ × List ℕ × F.World
      answer = F.read root 256 w

      buffer' : List ℕ
      buffer' = answer.1 ++ drop (length answer.1) buffer

      cells' : List Entry
      cells' = set cells index (entry_of (get_or cells index blank_entry) buffer')

      all_set : All IsNamed cells'
      all_set = All-set IsNamed cells index _ all (
          entry_of-IsNamed _ buffer' (All-get_or IsNamed cells index blank_entry all blank-IsNamed))

      later : ℕ × List Entry × F.World
      later = read_rounds F left (index + 1) root buffer' cells' answer.2

  -- A call on the disk keeps the array within its bound, and reports a count within it.
  record Bounded (bound : ℕ) (p : Place Entry) (r : Bool × Place Entry × F.World) : Type 0 where
    kept : Kept bound p.cells (r.1).cells
    counted : (r.0 ≡ false) ⊎ ((n : ℕ) × (n ≤ bound) × ((r.1).count ≡ pos n))

  unchanged-Bounded :
      (bound : ℕ) (p : Place Entry) (w : F.World)
      → All IsNamed p.cells
      → Bounded bound p (false, p, w)
  unchanged-Bounded bound p w all = record {
    kept = record { size = refl; beyond = refl; cell = all };
    counted = inl refl;
  }

  read_root-Bounded :
      (max root : ℕ) (buffer : List ℕ) (p : Place Entry) (w : F.World)
      → All IsNamed p.cells
      → Bounded max p (read_root F max root buffer p w)
  unfolding read_root
  read_root-Bounded max root buffer p w all =
      let (kept_from_zero, below) = read_rounds-Kept max 0 root buffer p.cells w all in
      let kept : Kept max p.cells (read_rounds F max 0 root buffer p.cells w).1 =
        subst (λ (n : ℕ). Kept n p.cells (read_rounds F max 0 root buffer p.cells w).1)
          (omega arith) kept_from_zero in
      elim (Bool-cases ((read_rounds F max 0 root buffer p.cells w).0 == 0)) [
        | inl e ↦ rw e (record { kept = kept; counted = inl refl })
        | inr e ↦ rw e (record {
          kept = kept;
          counted = inr ((read_rounds F max 0 root buffer p.cells w).0, omega (arith, below), refl);
        })
      ]

  read_disk_entries-Bounded :
      (ready : Bool) (buffer : List ℕ) (p : Place Entry) (max : ℕ) (w : F.World)
      → All IsNamed p.cells
      → Bounded max p (read_disk_entries F ready buffer p (pos max) w)
  unfolding read_disk_entries read_volume
  read_disk_entries-Bounded ready buffer p max w all =
      elim (Bool-cases (not ready || not (is_positive (pos max)))) [
        | inl e ↦ rw e (unchanged-Bounded max p w all)
        | inr e ↦ rw e (elim (Bool-cases (is_error located.0 || located.1 == 0)) [
          | inl e' ↦ rw e' (unchanged-Bounded max p _ all)
          | inr e' ↦ rw e' (elim (Bool-cases (is_error opened.0 || opened.1 == 0)) [
            | inl e'' ↦ rw e'' (unchanged-Bounded max p _ all)
            | inr e'' ↦ rw e'' (read_root-Bounded max opened.1 buffer p opened.2 all)
          ])
        ])
      ]
    where
      located : ℕ × ℕ × F.World
      located = F.locate_protocol w

      opened : ℕ × ℕ × F.World
      opened = F.open_volume located.1 located.2

  -- What eosfs_list_path leaves: a count within the bound, and an array whose cells beyond the
  -- bound are as before.
  pub record IsListed (max : ℕ) (p : Place Entry) (r : Bool × Option (Place Entry) × F.World)
      : Type 0 where
    pub listed : Place Entry
    pub count : ℕ
    pub answer : r.0 ≡ true
    pub stored : r.1 ≡ some listed
    pub counted : listed.count ≡ pos count
    pub within : count ≤ max
    pub kept : Kept max p.cells listed.cells

  copy_out-Kept :
      (s : Eosfs) (max : ℕ) (before : List Entry) (p : Place Entry)
      → All IsNamed s.entries
      → Kept max before p.cells
      → Kept max before (copy_out (entry s) s.entry_count max p).cells
  unfolding copy_out entry
  copy_out-Kept s max before p all kept =
      let within : (if ltb max s.entry_count then max else s.entry_count) ≤ max = ground arith in
      record {
        size = length-store_from _ 0 (entry s) p.cells ∙ kept.size;
        beyond = drop-store_from max _ 0 (entry s) p.cells (omega (arith, within)) ∙ kept.beyond;
        cell =
            All-store_from IsNamed _ 0 (entry s) p.cells
              (λ k. All-get_or IsNamed s.entries k blank_entry all blank-IsNamed) kept.cell;
      }

  -- With a place for the result, a positive bound, and names in the array and the table that end
  -- within their 16 cells, eosfs_list_path answers 1, whatever the firmware does: the count is
  -- within the bound, no cell of the array beyond the bound changes, and every name of the array
  -- ends within its 16 cells.
  pub list_path-IsListed :
      (ready : Bool) (buffer : List ℕ) (p : Place Entry) (max : ℕ) (s : Eosfs) (w : F.World)
      → 0 < max
      → All IsNamed p.cells
      → All IsNamed s.entries
      → IsListed max p (list_path F ready buffer (some p) (pos max) s w)
  unfolding list_path is_positive copy_out
  list_path-IsListed ready buffer p max s w positive all table =
      let bound : ltb 0 max ≡ true = ground arith in
      rw bound (elim (Bool-cases disk.0) [
        | inl e ↦ rw e (elim (bounded.counted) [
          | inl missing ↦ absurd (cc (e, missing))
          | inr (n, within, counted) ↦ record {
            listed = disk.1;
            count = n;
            answer = refl;
            stored = refl;
            counted = counted;
            within = within;
            kept = bounded.kept;
          }
        ])
        | inr e ↦ rw e (record {
          listed = copy_out (entry s) s.entry_count max disk.1;
          count = if ltb max s.entry_count then max else s.entry_count;
          answer = refl;
          stored = refl;
          counted = counted_out;
          within = ground arith;
          kept = copy_out-Kept s max p.cells disk.1 table bounded.kept;
        })
      ])
    where
      disk : Bool × Place Entry × F.World
      disk = read_disk_entries F ready buffer p (pos max) w

      bounded : Bounded max p disk
      bounded = read_disk_entries-Bounded ready buffer p max w all

      counted_out :
          (copy_out (entry s) s.entry_count max disk.1).count
          ≡ pos (if ltb max s.entry_count then max else s.entry_count)
      counted_out = refl
