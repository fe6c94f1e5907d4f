-- ===== src/Boot/Memory.antt =====
-- The total that the loader passes to the kernel.
use existent_os.Prelude.{
  ℕ, zero, suc, ◌+◌, ◌*◌, ◌/◌, ◌%◌, ◌<◌, ◌≡◌, ◌∙◌, List, [], ◌∷◌, arith, Bool-cases, inl, inr,
  if◌then◌else◌, drop,
}
use existent_os.Prelude.Bytes.{u32_at, u64_at}
use existent_os.Boot.{MemoryMap, is_usable, add_descriptor, sum_from, total_memory}

-- The type and the number of pages of each descriptor.
abbrev pub descriptors : ℕ → ℕ → List ℕ → List (ℕ × ℕ)
descriptors zero size bytes = []
descriptors (suc count) size bytes =
    (u32_at bytes, u64_at (drop 24 bytes)) ∷ descriptors count size (drop size bytes)

abbrev pub usable_pages : List (ℕ × ℕ) → ℕ
usable_pages [] = 0
usable_pages ((kind, pages) ∷ ds) = (if is_usable kind then pages else 0) + usable_pages ds

sum_from-usable_pages :
    (count size : ℕ) (cursor : List ℕ) (total : ℕ)
    → sum_from count size cursor total % 18446744073709551616
      ≡ (total + usable_pages (descriptors count size cursor) * 4096) % 18446744073709551616
unfolding sum_from add_descriptor
sum_from-usable_pages zero size cursor total = omega arith
sum_from-usable_pages (suc count) size cursor total =
    elim (Bool-cases (is_usable (u32_at cursor))) [
      | inl e ↦ rw e (
          sum_from-usable_pages count size (drop size cursor)
            ((total + u64_at (drop 24 cursor) * 4096) % 18446744073709551616)
          ∙ omega arith)
      | inr e ↦ rw e (sum_from-usable_pages count size (drop size cursor) total ∙ omega arith)
    ]

sum_from-word :
    (count size : ℕ) (cursor : List ℕ) (total : ℕ)
    → total < 18446744073709551616
    → sum_from count size cursor total < 18446744073709551616
unfolding sum_from add_descriptor
sum_from-word zero size cursor total h = h
sum_from-word (suc count) size cursor total h =
    sum_from-word count size (drop size cursor) _ (elim (Bool-cases (is_usable (u32_at cursor))) [
      | inl e ↦ rw e (omega arith)
      | inr e ↦ rw e h
    ])

-- The total is 4096 bytes for each page of usable memory in the map, as a 64-bit number.
pub total_memory-usable_pages :
    (m : MemoryMap)
    → total_memory m
      ≡ usable_pages (descriptors (m.size / m.descriptor_size) m.descriptor_size m.buffer)
        * 4096
        % 18446744073709551616
unfolding total_memory
total_memory-usable_pages m =
    let n = m.size / m.descriptor_size in
    let word = sum_from-word n m.descriptor_size m.buffer 0 (omega arith) in
    let sum = sum_from-usable_pages n m.descriptor_size m.buffer 0 in omega (arith, word, sum)
