-- ===== src/Layout/Stores.antt =====
-- The bytes of the user file and of a gate are those of the structs.
use existent_os.Prelude.{
  ap, ◌∙◌, ℕ, zero, suc, ◌+◌, ◌*◌, ◌<◌, ◌≡◌, refl, arith, List, some, get_or, drop, drop-drop, ◌^◌,
  Bool-cases, inl, inr, leb,
}
use mathlib.Core.Option
use existent_os.Prelude.Bytes.{chars_at}
use existent_os.Accounts.Image.{blank, account_at, entries_at, store_at, store_bytes}
use existent_os.Eosfs
use existent_os.Eosfs.{Eosfs, EntryType}
use existent_os.Idt
use existent_os.Idt.{Idt, Gate, idt_entries}
use existent_os.Idt.Init.{pointer-init}
use existent_os.Idt.Image.{gate_bytes}
use existent_os.Layout.{
  CType, number, read_member, read_packed, member_bytes, number_in, bytes_in, find, placements,
  packed_placements, size, alignment, packed_size,
}
use existent_os.Layout.Readers.{u32_at-drop}
use existent_os.Layout.Shared.{account, account_store, idt_entry, gpt_header, partition}

entries_at-drop :
    (n i : ℕ) (bs : List ℕ)
    → i < n
    → get_or (entries_at n bs) i blank ≡ account_at (drop (i * 132) bs)
unfolding entries_at
entries_at-drop zero i bs h = absurd (omega arith)
entries_at-drop (suc n) zero bs h = refl
entries_at-drop (suc n) (suc i) bs h =
    entries_at-drop n i (drop 132 bs) (omega arith)
    ∙ ap account_at (drop-drop (i * 132) 132 bs ∙ ap (λ (k : ℕ). drop k bs) (omega arith))

-- accounts_load takes the bytes it read for an account_store_t: the magic number and the count are the
-- struct's, and account `i` of the 8 is at `i` times the size of account_t in the array, its two texts
-- and its mark where that struct has them.
pub store_at-read_member :
    (bs : List ℕ) (i : ℕ)
    → i < 8
    → let a = get_or (store_at bs).entries i blank in
      (read_member "magic" account_store bs ≡ some (store_at bs).magic)
      × (read_member "count" account_store bs ≡ some (store_at bs).count)
      × ((entries : List ℕ) × (member_bytes "entries" account_store bs ≡ some entries)
          × (let cell = drop (i * size (CType.struct account)) entries in
              (Option.map (chars_at 32) (member_bytes "name" account cell) ≡ some a.name)
              × (Option.map (chars_at 32) (member_bytes "password" account cell) ≡ some a.password)
              × (read_member "admin" account cell ≡ some a.admin)))
unfolding store_at member_bytes bytes_in number_in find placements size alignment read_member
    account_at
store_at-read_member bs i h =
    rw
      (
        entries_at-drop 8 i (drop 8 bs) h,
        u32_at-drop 0 bs,
        u32_at-drop 4 bs,
        u32_at-drop 128 (drop (i * 132) (drop 8 bs)),
      )
      (refl, refl, (drop 8 bs, refl, (refl, refl, refl)))

-- A gate whose members fit their types is stored as the packed struct idt_entry64 has them.
pub gate_bytes-read_packed :
    (g : Gate)
    → g.offset_low < 2 ^ 16
    → g.selector < 2 ^ 16
    → g.ist < 2 ^ 8
    → g.type_attr < 2 ^ 8
    → g.offset_mid < 2 ^ 16
    → g.offset_high < 2 ^ 32
    → g.zero_field < 2 ^ 32
    → let bs = gate_bytes g in
      (read_packed "offset_low" idt_entry bs ≡ some g.offset_low)
      × (read_packed "selector" idt_entry bs ≡ some g.selector)
      × (read_packed "ist" idt_entry bs ≡ some g.ist)
      × (read_packed "type_attr" idt_entry bs ≡ some g.type_attr)
      × (read_packed "offset_mid" idt_entry bs ≡ some g.offset_mid)
      × (read_packed "offset_high" idt_entry bs ≡ some g.offset_high)
      × (read_packed "zero" idt_entry bs ≡ some g.zero_field)
unfolding gate_bytes number_in find packed_placements size alignment read_packed number
gate_bytes-read_packed g low selector ist type mid high rest = (
  ap some (omega arith),
  ap some (omega arith),
  ap some (omega arith),
  ap some (omega arith),
  ap some (omega arith),
  ap some (omega arith),
  ap some (omega arith),
)

gpt_header-add_entry :
    (name : List ℕ) (kind : EntryType) (s : Eosfs)
    → (Eosfs.add_entry name kind s).gpt_header ≡ s.gpt_header
unfolding Eosfs.add_entry
gpt_header-add_entry name kind s = elim (Bool-cases (leb 32 s.entry_count)) [
  | inl e ↦ rw e refl
  | inr e ↦ rw e refl
]

gpt_header-add_partition :
    (name : List ℕ) (start last : ℕ) (s : Eosfs)
    → (Eosfs.add_partition name start last s).gpt_header ≡ s.gpt_header
unfolding Eosfs.add_partition
gpt_header-add_partition name start last s = elim (Bool-cases (leb 4 s.partition_count)) [
  | inl e ↦ rw e refl
  | inr e ↦ rw e refl
]

gpt_header-init : (s : Eosfs) → (Eosfs.init s).gpt_header ≡ (Eosfs.reset s).gpt_header
unfolding Eosfs.init Eosfs.add_entries
gpt_header-init s = simp (gpt_header-add_partition, gpt_header-add_entry)

-- The sizes that the code writes out or takes with sizeof are those of the structs: a partition table
-- header and an entry of it, the user file, and the limit of the interrupt table, which is the last
-- byte of its 256 gates.
pub init-size :
    (s : Eosfs) (irq : ℕ → ℕ) (base : ℕ) (t : Idt)
    → ((Eosfs.init s).gpt_header.header_size ≡ size (CType.struct gpt_header))
      × ((Eosfs.init s).gpt_header.partition_entry_size ≡ size (CType.struct partition))
      × (store_bytes ≡ size (CType.struct account_store))
      × ((Idt.init irq base t).pointer.limit + 1 ≡ idt_entries * packed_size idt_entry)
unfolding size alignment packed_size Eosfs.reset
init-size s irq base t = rw (gpt_header-init s, pointer-init irq base t) (refl, refl, refl, refl)
