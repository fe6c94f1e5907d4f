-- ===== src/Accounts/Restart.antt =====
-- What the users can do after the next start.
use existent_os.Prelude.{
  ℕ, ◌<◌, ◌≡◌, refl, sym, ap, Bool, true, false, List, none, some, arith, get_or,
  get_or-append_length, get_or-set_self, if◌then◌else◌,
}
use existent_os.Prelude.Int.{pos, negsuc}
use existent_os.CString.{text}
use existent_os.Firmware.{Firmware}
use existent_os.Firmware.OpenFile.{IsDurable}
use existent_os.Accounts.State.{
  State, account, add, append_account, replace_password, change_password, may_add, may_change, save,
  init,
}
use existent_os.Accounts.Valid.{users, directory, IsValid, IsChars}
use existent_os.Accounts.Requests.{
  length-users, user-directory, may_add-IsAccepted, users-append_account, users-replace_password,
  may_change_needs,
}
use existent_os.Accounts.Refine.{
  outcome, append_account_refines, replace_password_refines, add-outcome, change_password-outcome,
}
use existent_os.Accounts.Invariant.{append_account-IsValid, replace_password-IsValid}
use existent_os.Accounts.Persist.{init-save}
use existent_os.Accounts.SignIn.{
  signs_in, login-user, below_of_signed, account_count-replace_password,
}
use existent_os.Accounts.Directory as Spec
use existent_os.Accounts.Directory.{User, Directory, same, stranger}

-- The table with nobody signed in.
abbrev pub signed_out : State → State
signed_out s = record s { current_account = negsuc 0 }

signed_out-IsValid : {s : State} → IsValid s → IsValid (signed_out s)
unfolding account
signed_out-IsValid v = record {
  table = v.table;
  sized = v.sized;
  room = v.room;
  signed = refl;
  named = v.named;
  distinct = v.distinct;
}

module _ (F : Firmware) (ready : Bool) where
  -- The operation that answers 1 was allowed, and its table is the one of the next start.
  init-outcome :
      (allowed : Bool) (next s t : State) (w : F.World)
      → IsDurable F ready
      → (allowed ≡ true → IsValid next × (0 < next.account_count))
      → (outcome F ready allowed next s w).0 ≡ true
      → (allowed ≡ true)
        × ((init F ready t (outcome F ready allowed next s w).2).0 ≡ signed_out next)
  init-outcome true next s t w durable sound done =
      let (valid, some_user) = sound refl in
      (
        refl,
        init-save F ready t w (save F ready next w).1 durable valid some_user
            (λ i. (done i, (save F ready next w).1)),
      )
  init-outcome false next s t w durable sound done = absurd (cc (done))

  -- Where the firmware keeps what is written, after an addition of CHAR16 texts on a valid table that
  -- accounts_add answered with 1, and a restart, the table has the users that the directory's
  -- `add` leaves, nobody is signed in, and the new user can sign in, with the given password only.
  pub init-add :
      (name password attempt : List ℕ) {s : State} (t : State) (w : F.World)
      → IsDurable F ready
      → IsChars name
      → IsChars password
      → IsValid s
      → (add F ready name password s w).0 ≡ true
      → let r = (init F ready t (add F ready name password s w).2).0 in
        let granted = same (text password) (text attempt) in
        (directory r
          ≡ record (Spec.add (text name) (text password) (directory s)) { current = none })
        × (signs_in name attempt r ≡ (granted, (if granted then some s.account_count else none)))
  unfolding account append_account
  init-add name password attempt {s} t w durable cn cp v done =
      let (allowed, restarted) =
        init-outcome (may_add name password s) next s t w durable
          (λ h. (append_account-IsValid name password cn cp v h, omega arith))
          (rw (add-outcome F ready name password s w) at (done)) in
      let ok = may_add-IsAccepted name password v allowed in
      let u : User = record { name = text name; password = text password; admin = false } in
      rw (add-outcome F ready name password s w, restarted)
        (
          ap (λ (d : Directory). record d { current = none })
              (append_account_refines name password v allowed),
          login-user s.account_count u name attempt
              (signed_out-IsValid (append_account-IsValid name password cn cp v allowed))
              (omega arith)
              (rw (users-append_account name password v ok)
                (get_or-append_length (users s) u stranger s.account_count (sym (length-users s))))
              refl,
        )
    where
      next : State
      next = append_account name password s

  -- Where the firmware keeps what is written, after a change of password to CHAR16 values on a valid
  -- table with a user signed in that accounts_change_password answered with 1, and a restart: the
  -- table has the users that the directory's `change` leaves, nobody is signed in, and the user who
  -- was signed in can sign in with the new password, and with no other.
  pub init-change_password :
      (old new attempt : List ℕ) (k : ℕ) {s : State} (t : State) (w : F.World)
      → IsDurable F ready
      → IsChars new
      → IsValid s
      → s.current_account ≡ pos k
      → (change_password F ready old new s w).0 ≡ true
      → let r = (init F ready t (change_password F ready old new s w).2).0 in
        let granted = same (text new) (text attempt) in
        (directory r ≡ record (Spec.change (text old) (text new) (directory s)) { current = none })
        × (signs_in (account s k).name attempt r ≡ (granted, (if granted then some k else none)))
  unfolding account
  init-change_password old new attempt k {s} t w durable cn v e done =
      let below : k < s.account_count = below_of_signed s k e v.signed in
      let (allowed, restarted) =
        init-outcome (may_change old new s) next s t w durable
          (λ h. (
            replace_password-IsValid new cn k v e (may_change_needs old new s h).0,
            omega (arith, below, account_count-replace_password new s),
          ))
          (rw (change_password-outcome F ready old new s w) at (done)) in
      let word = (may_change_needs old new s allowed).0 in
      let u : User = record (get_or (users s) k stranger) { password = text new } in
      rw (change_password-outcome F ready old new s w, restarted)
        (
          ap (λ (d : Directory). record d { current = none })
              (replace_password_refines old new v allowed),
          login-user k u (account s k).name attempt
              (signed_out-IsValid (replace_password-IsValid new cn k v e word))
              (omega (arith, below, account_count-replace_password new s))
              (rw (users-replace_password new k v e word)
                (get_or-set_self (users s) k u stranger (omega (arith, length-users s, below))))
              (ap (λ (x : User). x.name) (sym (user-directory s k below))),
        )
    where
      next : State
      next = replace_password new s
