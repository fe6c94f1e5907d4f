-- ===== src/Layout/Readers.antt =====
-- The byte offsets of the memory map (boot/efi_main.c) are those of the struct.
use existent_os.Prelude.{
  ℕ, zero, suc, ◌+◌, ◌*◌, ◌/◌, ◌%◌, ◌≡◌, refl, arith, Bool, false, List, [], ◌∷◌, Option, none,
  some, drop, get_or-drop, if◌then◌else◌, ◌==◌, ◌||◌, map, ◌^◌,
}
use existent_os.Prelude.Bytes.{u32_at, u64_at}
use existent_os.Boot.{MemoryMap, is_usable, total_memory}
use existent_os.Boot.Memory.{usable_pages, descriptors, total_memory-usable_pages}
use existent_os.Layout.{number, read_member, number_in, find, placements, size, alignment}
use existent_os.Layout.Records.{MemoryType, code_of, memory_descriptor}

pub u32_at-drop : (n : ℕ) (bs : List ℕ) → u32_at (drop n bs) ≡ number 4 n bs
unfolding number u32_at
u32_at-drop n bs = simp get_or-drop (omega arith)

pub u64_at-drop : (n : ℕ) (bs : List ℕ) → u64_at (drop n bs) ≡ number 8 n bs
unfolding number u64_at u32_at
u64_at-drop n bs = simp get_or-drop (omega arith)

-- The memory types that the loader counts as usable.
abbrev free_codes : List ℕ
free_codes = map code_of (
    MemoryType.conventional_memory ∷ MemoryType.loader_code ∷ MemoryType.loader_data
    ∷ MemoryType.boot_services_code ∷ MemoryType.boot_services_data ∷ [])

abbrev is_one_of : ℕ → List ℕ → Bool
is_one_of k [] = false
is_one_of k (c ∷ cs) = k == c || is_one_of k cs

abbrev map₂ {ℓ} : {A B C : Type ℓ} → (A → B → C) → Option A → Option B → Option C
map₂ f none b = none
map₂ f (some a) none = none
map₂ f (some a) (some b) = some (f a b)

is_usable-is_one_of : (kind : ℕ) → is_usable kind ≡ is_one_of kind free_codes
unfolding is_usable code_of
is_usable-is_one_of kind = ground arith

-- The pages that a descriptor adds, read through the struct.
abbrev pub counted_pages : ℕ → ℕ → ℕ
counted_pages kind pages = if is_one_of kind free_codes then pages else 0

abbrev pub descriptor_pages : List ℕ → Option ℕ
descriptor_pages bs =
    map₂ counted_pages (read_member "Type" memory_descriptor bs)
      (read_member "NumberOfPages" memory_descriptor bs)

abbrev pub map_pages : ℕ → ℕ → List ℕ → Option ℕ
map_pages zero step bs = some 0
map_pages (suc count) step bs =
    map₂ (λ a b. a + b) (descriptor_pages bs) (map_pages count step (drop step bs))

descriptor_pages_lem :
    (bs : List ℕ)
    → descriptor_pages bs ≡ some (if is_usable (u32_at bs) then u64_at (drop 24 bs) else 0)
unfolding number_in find placements size alignment read_member code_of is_usable
descriptor_pages_lem bs =
    rw (is_usable-is_one_of (u32_at bs), u64_at-drop 24 bs, u32_at-drop 0 bs) refl

map_pages_lem :
    (count step : ℕ) (bs : List ℕ)
    → map_pages count step bs ≡ some (usable_pages (descriptors count step bs))
map_pages_lem zero step bs = refl
map_pages_lem (suc count) step bs =
    rw (descriptor_pages_lem bs, map_pages_lem count step (drop step bs)) refl

-- The total that the kernel is told is 4096 bytes for each page of every descriptor whose Type is one
-- of the five usable constants of EFI_MEMORY_TYPE, as a 64-bit number, where Type and NumberOfPages
-- are read at the places of the struct EFI_MEMORY_DESCRIPTOR and the descriptors are as far apart as
-- the firmware says.
pub total_memory-read_member :
    (m : MemoryMap)
    → (pages : ℕ) × (map_pages (m.size / m.descriptor_size) m.descriptor_size m.buffer ≡ some pages)
      × (total_memory m ≡ pages * 4096 % 2 ^ 64)
total_memory-read_member m = (
  usable_pages (descriptors (m.size / m.descriptor_size) m.descriptor_size m.buffer),
  map_pages_lem (m.size / m.descriptor_size) m.descriptor_size m.buffer,
  total_memory-usable_pages m,
)
