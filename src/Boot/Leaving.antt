-- ===== src/Boot/Leaving.antt =====
-- The retry loop returns at the first round that does not ask for another.
use existent_os.Prelude.{ℕ, zero, suc, ◌<◌, ◌≡◌, refl, ◌∙◌, Bool, true, false, Option, some, arith}
use existent_os.Boot.{
  Services, Outcome, failed, left, again, round, go_on, rounds, leave_boot_services,
}

abbrev pub is_final : Outcome → Bool
is_final (failed status) = true
is_final (left total) = true
is_final again = false

module _ (S : Services) where
  -- The world after some rounds.
  abbrev pub after : ℕ → S.World → S.World
  after zero w = w
  after (suc n) w = after n (round S w).1

  go_on_final :
      (r : Outcome × S.World) (rest : Option (Outcome × S.World))
      → is_final r.0 ≡ true
      → go_on S r rest ≡ some r
  unfolding go_on
  go_on_final (failed status, w) rest h = refl
  go_on_final (left total, w) rest h = refl
  go_on_final (again, w) rest h = absurd (cc (h))

  go_on_again :
      (r : Outcome × S.World) (rest : Option (Outcome × S.World))
      → is_final r.0 ≡ false
      → go_on S r rest ≡ rest
  unfolding go_on
  go_on_again (failed status, w) rest h = absurd (cc (h))
  go_on_again (left total, w) rest h = absurd (cc (h))
  go_on_again (again, w) rest h = refl

  -- If `n` rounds in a row fail for a stale key and the next one does not, efi_leave_boot_services
  -- returns what that round returns, on any fuel above `n`.
  pub leave_boot_services-round :
      (n fuel : ℕ) (w : S.World)
      → ((j : ℕ) → j < n → is_final (round S (after j w)).0 ≡ false)
      → is_final (round S (after n w)).0 ≡ true
      → n < fuel
      → leave_boot_services S true fuel w ≡ some (round S (after n w))
  unfolding leave_boot_services rounds
  leave_boot_services-round n zero w stale final enough = absurd (omega arith)
  leave_boot_services-round zero (suc fuel) w stale final enough = go_on_final (round S w) _ final
  leave_boot_services-round (suc n) (suc fuel) w stale final enough =
      go_on_again (round S w) _ (stale 0 (omega arith))
      ∙ leave_boot_services-round n fuel (round S w).1 (λ j h. stale (suc j) (omega arith)) final
          (omega arith)
