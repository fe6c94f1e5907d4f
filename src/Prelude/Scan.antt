-- ===== src/Prelude/Scan.antt =====
-- `for (i = first; i < first + n; ++i) if (test(i)) return i;`, the linear searches of the program.
use Prim.Native.Nat.{ℕ, zero, suc, ◌+◌, ◌≤◌, ◌<◌}
use mathlib.Core.Path.{◌≡◌, refl}
use mathlib.Core.Logic.{inl, inr}
use mathlib.Core.Bool.{Bool, true, false}
use mathlib.Core.Option.{Option, none, some}
use mathlib.Core.Logic.{◌≢◌, ◌⊎◌}
use mathlib.Core.Path.{ap, ap₂, ◌∙◌}
use mathlib.Core.List.{List, [], ◌∷◌, ◌++◌}
use existent_os.Prelude.Lists.{
  length, get_or, set, take, take_all, length-set, get_or-set_ne, get_or-set_self,
}
use native.Mathlib.Omega.{arith}
use native.Mathlib.Decide.{ℕ_discrete}
use existent_os.Prelude.Tests.{ltb, Bool-cases, if◌then◌else◌}

unfoldable pub first_index : (ℕ → Bool) → ℕ → ℕ → Option ℕ
first_index test zero i = none
first_index test (suc n) i =
    let rest = first_index test n (i + 1) in if test i then some i else rest

-- What a search that found an index says.
pub record IsFirst (test : ℕ → Bool) (n i k : ℕ) : Type 0 where
  pub from : i ≤ k
  pub below : k < i + n
  pub hit : test k ≡ true
  pub before : (j : ℕ) → i ≤ j → j < k → test j ≡ false

pub first_index-IsFirst :
    (test : ℕ → Bool) (n i k : ℕ) → first_index test n i ≡ some k → IsFirst test n i k
unfolding first_index
first_index-IsFirst test zero i k h = absurd (cc)
first_index-IsFirst test (suc n) i k h = elim (Bool-cases (test i)) [
  | inl e ↦
      let same : i ≡ k = ground arith in
      record {
        from = omega arith;
        below = omega arith;
        hit = ground arith;
        before = λ j a b. absurd (omega arith);
      }
  | inr e ↦
      let later = first_index-IsFirst test n (i + 1) k (ground arith) in
      record {
        from = omega (arith, later.from);
        below = omega (arith, later.below);
        hit = later.hit;
        before = λ j a b. elim (ℕ_discrete j i) [
          | yes q ↦ ground arith
          | no q ↦ later.before j (omega arith) b
        ];
      }
]

pub first_index-none :
    (test : ℕ → Bool) (n i : ℕ)
    → first_index test n i ≡ none
    → (j : ℕ) → i ≤ j
    → j < i + n
    → test j ≡ false
unfolding first_index
first_index-none test zero i h j a b = absurd (omega arith)
first_index-none test (suc n) i h j a b = elim (ℕ_discrete j i) [
  | yes q ↦ ground arith
  | no q ↦ first_index-none test n (i + 1) (ground arith) j (omega arith) (omega arith)
]

-- The values of `f` at `n` indices from `i` on.
module _ {ℓ} {A : Type ℓ} where
  abbrev pub segment : (ℕ → A) → ℕ → ℕ → List A
  segment f zero i = []
  segment f (suc n) i = f i ∷ segment f n (i + 1)

  pub length-segment : (f : ℕ → A) (n i : ℕ) → length (segment f n i) ≡ n
  length-segment f zero i = refl
  length-segment f (suc n) i = ap suc (length-segment f n (i + 1))

  pub get_or-segment :
      (f : ℕ → A) (n i k : ℕ) (d : A) → k < n → get_or (segment f n i) k d ≡ f (i + k)
  get_or-segment f zero i k d h = absurd (omega arith)
  get_or-segment f (suc n) i zero d h = ap f (omega arith)
  get_or-segment f (suc n) i (suc k) d h =
      get_or-segment f n (i + 1) k d (omega arith) ∙ ap f (omega arith)

  pub segment-suc : (f : ℕ → A) (n i : ℕ) → segment f (suc n) i ≡ segment f n i ++ (f (i + n) ∷ [])
  segment-suc f zero i = ap (λ (k : ℕ). f k ∷ []) (omega arith)
  segment-suc f (suc n) i =
      ap (λ t. f i ∷ t)
        (segment-suc f n (i + 1) ∙ ap (λ (k : ℕ). segment f n (i + 1) ++ (f k ∷ [])) (omega arith))

  pub segment_eq :
      (f g : ℕ → A) (n i : ℕ)
      → ((k : ℕ) → i ≤ k → k < i + n → f k ≡ g k)
      → segment f n i ≡ segment g n i
  segment_eq f g zero i h = refl
  segment_eq f g (suc n) i h =
      ap₂ ◌∷◌ (h i (omega arith) (omega arith))
        (segment_eq f g n (i + 1) (λ k a b. h k (omega arith) (omega arith)))

  -- Two functions that differ at one index only.
  pub segment-set :
      (f g : ℕ → A) (n i k : ℕ)
      → ((j : ℕ) → i ≤ j → j < i + n → j ≢ i + k → g j ≡ f j)
      → segment g n i ≡ set (segment f n i) k (g (i + k))
  segment-set f g zero i k h = refl
  segment-set f g (suc n) i zero h =
      ap₂ ◌∷◌ (ap g (omega arith))
        (segment_eq g f n (i + 1) (λ j a b. h j (omega arith) (omega arith) (omega arith)))
  segment-set f g (suc n) i (suc k) h = ap₂ ◌∷◌ (h i (omega arith) (omega arith) (omega arith)) (
      segment-set f g n (i + 1) k
        (λ j a b c. h j (omega arith) (omega arith) (λ e. c (omega arith)))
      ∙ ap (λ (j : ℕ). set (segment f n (i + 1)) k (g j)) (omega arith))

  take-segment_below :
      (m : ℕ) (f : ℕ → A) (n i : ℕ) → m ≤ n → take m (segment f n i) ≡ segment f m i
  take-segment_below zero f n i h = refl
  take-segment_below (suc m) f zero i h = absurd (omega arith)
  take-segment_below (suc m) f (suc n) i h =
      ap (λ t. f i ∷ t) (take-segment_below m f n (i + 1) (omega arith))

  -- The first values of a segment.
  pub take-segment :
      (m : ℕ) (f : ℕ → A) (n i : ℕ)
      → take m (segment f n i) ≡ segment f (if ltb m n then m else n) i
  take-segment m f n i = elim (Bool-cases (ltb m n)) [
    | inl e ↦ rw e (take-segment_below m f n i (ground arith))
    | inr e ↦
        let enough : n ≤ m = ground arith in
        rw e (take_all m (segment f n i) (omega (arith, length-segment f n i)))
  ]

  -- `for (i = first; i < first + n; ++i) to[i] = f(i);`
  unfoldable pub store_from : ℕ → ℕ → (ℕ → A) → List A → List A
  store_from zero i f to = to
  store_from (suc n) i f to = store_from n (i + 1) f (set to i (f i))

  pub length-store_from :
      (n i : ℕ) (f : ℕ → A) (to : List A) → length (store_from n i f to) ≡ length to
  unfolding store_from
  length-store_from zero i f to = refl
  length-store_from (suc n) i f to =
      length-store_from n (i + 1) f (set to i (f i)) ∙ length-set to i (f i)

  -- The loop leaves the cells outside its range.
  pub get_or-store_from_outside :
      (n i k : ℕ) (f : ℕ → A) (to : List A) (d : A)
      → (k < i) ⊎ (i + n ≤ k)
      → get_or (store_from n i f to) k d ≡ get_or to k d
  unfolding store_from
  get_or-store_from_outside zero i k f to d h = refl
  get_or-store_from_outside (suc n) i k f to d h =
      get_or-store_from_outside n (i + 1) k f (set to i (f i)) d (later h)
      ∙ get_or-set_ne to i k (f i) d (apart h)
    where
      later : (k < i) ⊎ (i + suc n ≤ k) → (k < i + 1) ⊎ (i + 1 + n ≤ k)
      later (inl below) = inl (omega arith)
      later (inr above) = inr (omega arith)

      apart : (k < i) ⊎ (i + suc n ≤ k) → i ≢ k
      apart (inl below) same = omega arith
      apart (inr above) same = omega arith

  pub get_or-store_from :
      (n i k : ℕ) (f : ℕ → A) (to : List A) (d : A)
      → i ≤ k
      → k < i + n
      → k < length to
      → get_or (store_from n i f to) k d ≡ f k
  unfolding store_from
  get_or-store_from zero i k f to d a b c = absurd (omega arith)
  get_or-store_from (suc n) i k f to d a b c = elim (ℕ_discrete i k) [
    | yes same ↦
        get_or-store_from_outside n (i + 1) k f (set to i (f i)) d (inl (omega arith))
        ∙ rw same (get_or-set_self to k (f k) d c)
    | no other ↦
        get_or-store_from n (i + 1) k f (set to i (f i)) d (omega arith) (omega arith)
          (omega (arith, length-set to i (f i)))
  ]
