-- ===== src/Boot/Settled.antt =====
-- That the retry loop of efi_leave_boot_services of OSC/boot/efi_main.c returns.
use existent_os.Prelude.{ℕ, ◌<◌, ◌≤◌, ◌≡◌, refl, Bool, true, false, Option, none, some, arith}
use existent_os.Boot.{Services, Outcome, round, leave_boot_services}
use existent_os.Boot.Leaving.{is_final, after, leave_boot_services-round}

-- From every world, fewer than `tries` exits in a row fail for a stale key.
pub record Settles (S : Services) (tries : ℕ) : Type 0 where
  pub stale : S.World → ℕ
  pub few : (w : S.World) → stale w < tries
  pub before : (w : S.World) (j : ℕ) → j < stale w → is_final (round S (after S j w)).0 ≡ false
  pub final : (w : S.World) → is_final (round S (after S (stale w) w)).0 ≡ true

-- efi_leave_boot_services has returned.
abbrev pub HasReturned : {World : Type 0} → Option (Outcome × World) → Type 0
HasReturned none = ⊥
HasReturned (some (o, w)) = is_final o ≡ true

pub leave_boot_services-HasReturned :
    (S : Services) (tries fuel : ℕ) (ready : Bool) (w : S.World)
    → Settles S tries
    → tries ≤ fuel
    → HasReturned (leave_boot_services S ready fuel w)
unfolding leave_boot_services
leave_boot_services-HasReturned S tries fuel false w settles enough = refl
leave_boot_services-HasReturned S tries fuel true w settles enough =
    rw
      (leave_boot_services-round S (settles.stale w) fuel w (settles.before w) (settles.final w)
        (omega (arith, settles.few w)))
      (settles.final w)
