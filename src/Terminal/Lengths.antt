-- ===== src/Terminal/Lengths.antt =====
-- The parts of a command line are shorter than the line.
use existent_os.Prelude.{
  ℕ, zero, suc, ◌+◌, ◌<◌, ◌≤◌, ◌≡◌, ◌∙◌, List, [], ◌∷◌, Option, none, some, arith, ltb, ◌==◌,
  length, length-set, set, Bool-cases, inl, inr,
}
use existent_os.CString.{text}
use existent_os.Terminal.{max_line}
use existent_os.Terminal.Segments.{
  copy_segment, copy_range, trim_start, trim_end, push_back, put_first, cut,
}

length-text-set : (d : List ℕ) (at : ℕ) → at < length d → length (text (set d at 0)) ≤ at
length-text-set [] at h = absurd (omega arith)
length-text-set (x ∷ d) zero h = omega arith
length-text-set (x ∷ d) (suc at) h = ground (arith, length-text-set d at (omega arith))

length-copy_range :
    (at : ℕ) (d cells : List ℕ)
    → length d ≡ max_line
    → at < max_line
    → length (text (copy_range at d cells)) ≤ at + length cells
unfolding copy_range
length-copy_range at d [] h k = omega (arith, length-text-set d at (omega arith))
length-copy_range at d (c ∷ cells) h k = elim (Bool-cases (ltb (at + 1) max_line)) [
  | inl e ↦
      let rest =
        length-copy_range (at + 1) (set d at c) cells (length-set d at c ∙ h) (ground arith) in
      rw e (omega (arith, rest))
  | inr e ↦ let short = length-text-set d at (omega arith) in rw e (omega (arith, short))
]

length-trim_start : (s : List ℕ) → length (trim_start s) ≤ length s
unfolding trim_start
length-trim_start [] = omega arith
length-trim_start (c ∷ s) = ground (arith, length-trim_start s)

length-push_back : (c : ℕ) (s : List ℕ) → length (push_back c s) ≤ suc (length s)
length-push_back c [] = ground arith
length-push_back c (d ∷ s) = omega arith

length-trim_end : (s : List ℕ) → length (trim_end s) ≤ length s
unfolding trim_end
length-trim_end [] = omega arith
length-trim_end (c ∷ s) = omega (arith, length-push_back c (trim_end s), length-trim_end s)

pub length-copy_segment :
    (d cells : List ℕ) → length d ≡ max_line → length (text (copy_segment d cells)) ≤ length cells
unfolding copy_segment
length-copy_segment d cells h = omega (
  arith,
  length-copy_range 0 d (trim_end (trim_start cells)) h (omega arith),
  length-trim_end (trim_start cells),
  length-trim_start cells,
)

-- The parts of a text of less than `n` characters.
abbrev pub AreShorter : ℕ → Option (List ℕ × List ℕ) → Type 0
AreShorter n none = Unit {0}
AreShorter n (some (before, after)) = (length before < n) × (length (text after) < n)

put_first-AreShorter :
    (n c : ℕ) (r : Option (List ℕ × List ℕ)) → AreShorter n r → AreShorter (suc n) (put_first c r)
put_first-AreShorter n c none h = tt
put_first-AreShorter n c (some (before, after)) h = (omega (arith, h.0), omega (arith, h.1))

pub cut-AreShorter : (mark : ℕ) (s : List ℕ) → AreShorter (length (text s)) (cut mark s)
unfolding cut
cut-AreShorter mark [] = tt
cut-AreShorter mark (c ∷ s) = elim (Bool-cases (c == 0)) [
  | inl e ↦ rw e tt
  | inr e ↦ elim (Bool-cases (c == mark)) [
    | inl f ↦ rw (e, f) (omega arith, omega arith)
    | inr f ↦ rw (e, f) (put_first-AreShorter (length (text s)) c _ (cut-AreShorter mark s))
  ]
]
