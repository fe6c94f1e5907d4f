-- ===== src/CString/Laws.antt =====
-- `equal` compares texts, and a bounded copy leaves the text cut to the bound.
use existent_os.Prelude.{
  ℕ, zero, suc, ◌<◌, ◌≡◌, refl, ◌↔◌, true, List, [], ◌∷◌, arith, length, set, take, length-set, All,
  All-set, Bool-cases, inl, inr, ◌==◌, ◌||◌, leb,
}
use existent_os.CString.{text, equal, copy_from, copy_upto}

-- Two arrays compare equal exactly when they hold the same text.
pub equal_iff : (a b : List ℕ) → (equal a b ≡ true) ↔ (text a ≡ text b)
unfolding equal
equal_iff [] [] = (λ _. refl, λ _. refl)
equal_iff [] (y ∷ b) = ground arith
equal_iff (x ∷ a) [] = ground arith
equal_iff (x ∷ a) (y ∷ b) = ground (arith, equal_iff a b)

copy_from-suc :
    (max i : ℕ) (x : ℕ) (to from : List ℕ)
    → copy_from (suc max) (suc i) (x ∷ to) from ≡ x ∷ copy_from max i to from
unfolding copy_from
copy_from-suc max i x to [] = refl
copy_from-suc max i x to (c ∷ from) = ground (arith, copy_from-suc max (suc i) x (set to i c) from)

-- The copy holds the text of the source cut to the bound, whatever the array held before.
pub text-copy_upto :
    (max : ℕ) (to from : List ℕ)
    → max < length to
    → text (copy_upto max to from) ≡ take max (text from)
unfolding copy_upto
text-copy_upto max [] from h = absurd (omega arith)
text-copy_upto zero (x ∷ to) [] h = refl
text-copy_upto zero (x ∷ to) (c ∷ from) h = ground arith
text-copy_upto (suc max) (x ∷ to) [] h = refl
text-copy_upto (suc max) (x ∷ to) (c ∷ from) h =
    ground (arith, copy_from-suc max 0 c to from, text-copy_upto max to from (omega arith))

length-copy_from : (max i : ℕ) (to from : List ℕ) → length (copy_from max i to from) ≡ length to
unfolding copy_from
length-copy_from max i to [] = length-set to i 0
length-copy_from max i to (c ∷ from) =
    ground
      (arith, length-set to i 0, length-set to i c, length-copy_from max (suc i) (set to i c) from)

-- A copy never changes the size of the array.
pub length-copy_upto : (max : ℕ) (to from : List ℕ) → length (copy_upto max to from) ≡ length to
unfolding copy_upto
length-copy_upto max to from = length-copy_from max 0 to from

All-copy_from :
    (P : ℕ → Type 0) (max i : ℕ) (to from : List ℕ)
    → P 0
    → All P to
    → All P from
    → All P (copy_from max i to from)
unfolding copy_from
All-copy_from P max i to [] z ht hf = All-set P to i 0 ht z
All-copy_from P max i to (c ∷ from) z ht hf = elim (Bool-cases (c == 0 || leb max i)) [
  | inl e ↦ rw e (All-set P to i 0 ht z)
  | inr e ↦ rw e (All-copy_from P max (suc i) (set to i c) from z (All-set P to i c ht hf.0) hf.1)
]

-- What holds of zero and of every cell of the two arrays holds of every cell after the copy.
pub All-copy_upto :
    (P : ℕ → Type 0) (max : ℕ) (to from : List ℕ)
    → P 0
    → All P to
    → All P from
    → All P (copy_upto max to from)
unfolding copy_upto
All-copy_upto P max to from z ht hf = All-copy_from P max 0 to from z ht hf
