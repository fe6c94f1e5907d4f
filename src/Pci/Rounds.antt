-- ===== src/Pci/Rounds.antt =====
-- The loops of the search in pci.c stop at the first round that finds something.
use existent_os.Prelude.{
  ℕ, zero, suc, ◌+◌, ◌≤◌, ◌<◌, ◌≡◌, refl, arith, ◌∙◌, Option, none, some, inl, inr, ◌⊎◌,
}
use native.Mathlib.Decide.{ℕ_discrete}
use existent_os.Pci.{first_some}

-- A search has found something or nothing.
pub outcome {ℓ} : {A : Type ℓ} (found : Option A) → ((a : A) × (found ≡ some a)) ⊎ (found ≡ none)
outcome (some a) = inl (a, refl)
outcome none = inr refl

-- The round in which a loop found a value.
pub record Hit {ℓ} {A : Type ℓ} (body : ℕ → Option A) (n i : ℕ) (a : A) : Type ℓ where
  pub round : ℕ
  pub from : i ≤ round
  pub below : round < i + n
  pub found : body round ≡ some a
  pub before : (j : ℕ) → i ≤ j → j < round → body j ≡ none

module _ {ℓ} {A : Type ℓ} (body : ℕ → Option A) where
  pub first_some-Hit : (n i : ℕ) (a : A) → first_some body n i ≡ some a → Hit body n i a
  unfolding first_some
  first_some-Hit zero i a h = absurd (cc)
  first_some-Hit (suc n) i a h = elim (outcome (body i)) [
    | inr e ↦
        let later = first_some-Hit n (i + 1) a (rw (e, first_some) at h) in
        record {
          round = later.round;
          from = omega (arith, later.from);
          below = omega (arith, later.below);
          found = later.found;
          before = λ j p q. elim (ℕ_discrete j i) [
            | yes r ↦ rw r e
            | no r ↦ later.before j (omega arith) q
          ];
        }
    | inl (b, e) ↦ record {
      round = i;
      from = omega arith;
      below = omega arith;
      found = e ∙ (rw (e, first_some) at h);
      before = λ j p q. absurd (omega arith);
    }
  ]

  pub first_some-none :
      (n i : ℕ) → first_some body n i ≡ none → (j : ℕ) → i ≤ j → j < i + n → body j ≡ none
  unfolding first_some
  first_some-none zero i h j p q = absurd (omega arith)
  first_some-none (suc n) i h j p q = elim (outcome (body i)) [
    | inr e ↦ elim (ℕ_discrete j i) [
      | yes r ↦ rw r e
      | no r ↦ first_some-none n (i + 1) (rw (e, first_some) at h) j (omega arith) (omega arith)
    ]
    | inl (b, e) ↦ let h' : some b ≡ none = rw (e, first_some) at h in absurd (cc)
  ]
