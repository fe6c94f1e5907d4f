-- ===== src/Accounts/Refine.antt =====
-- The functions of accounts.c on a valid table do what the directory says.
use mathlib.Core.Path.{fun_ext}
use existent_os.Prelude.{
  ℕ, ◌≡◌, refl, sym, ap, ◌∙◌, Bool, true, false, ◌&&◌, List, Option, none, some, if◌then◌else◌,
  get_or, set, Bool-cases, inl, inr,
}
use existent_os.Prelude.Int.{pos, is_negative, to_ℕ}
use existent_os.Prelude.Scan.{first_index}
use existent_os.Firmware.{Firmware}
use existent_os.CString.{text}
use existent_os.Accounts.State.{
  State, account, credentials_match, sign_in, login, append_account, may_add, may_change,
  replace_password, save, add, change_password,
}
use existent_os.Accounts.Valid.{
  view, users, directory, IsValid, equal-eq-same, first_index-find_user,
}
use existent_os.Accounts.Directory as Spec
use existent_os.Accounts.Directory.{User, Directory, same, is_word, find_user, stranger}
use existent_os.Accounts.Requests.{
  may_add-directory, may_change-directory, may_add-IsAccepted, users-append_account,
  users-replace_password, pos_of_current, may_change_needs,
}

credentials_match-same :
    (name password : List ℕ) (s : State) (i : ℕ)
    → credentials_match s name password i ≡ (
        same (text (account s i).name) (text name)
        && same (text (account s i).password) (text password))
unfolding credentials_match
credentials_match-same name password s i =
    rw (equal-eq-same (account s i).name name, equal-eq-same (account s i).password password)

sign_in_refines :
    (o : Option ℕ) (s : State)
    → let (done, s') = sign_in o s in (done, directory s') ≡ Spec.sign_in o (directory s)
unfolding sign_in Spec.sign_in account
sign_in_refines (some i) s = refl
sign_in_refines none s = refl

-- Signing in does what the directory says, with the same answer.
pub login_refines :
    (name password : List ℕ) (s : State)
    → let (done, s') = login name password s in
      (done, directory s') ≡ Spec.login (text name) (text password) (directory s)
unfolding login Spec.login
login_refines name password s =
    sign_in_refines _ s ∙ ap (λ o. Spec.sign_in o (directory s)) search_lem
  where
    search_lem :
        first_index (credentials_match s name password) s.account_count 0
        ≡ find_user (λ u. same u.name (text name) && same u.password (text password)) (users s) 0
    search_lem =
        ap (λ test. first_index test s.account_count 0)
          (fun_ext (λ i. credentials_match-same name password s i))
        ∙ sym (first_index-find_user _ (λ i. view (account s i)) s.account_count 0)

-- Adding an account does what the directory says: the users are the directory's afterwards,
-- whether or not the file could be written.
pub append_account_refines :
    (name password : List ℕ) {s : State}
    → IsValid s
    → may_add name password s ≡ true
    → directory (append_account name password s)
      ≡ Spec.add (text name) (text password) (directory s)
unfolding Spec.add append_account
append_account_refines name password {s} v h = rw (sym (may_add-directory name password v) ∙ h) λ i.
    record {
      users = users-append_account name password v (may_add-IsAccepted name password v h) i;
      current = (directory s).current;
    }

set_password-users :
    (new_password : List ℕ) (s : State) (k : ℕ)
    → s.current_account ≡ pos k
    → users (replace_password new_password s)
      ≡ set (users s) k (record (get_or (users s) k stranger) { password = text new_password })
    → directory (replace_password new_password s)
      ≡ Spec.set_password (text new_password) (directory s)
unfolding Spec.set_password replace_password
set_password-users new_password s k e h =
    let current : (directory s).current ≡ some k =
      ap (λ c. if is_negative c then none else some (to_ℕ c)) e in
    let changed : directory (replace_password new_password s)
        ≡ Spec.set_password (text new_password) (record { users = users s; current = some k }) =
      λ i. record { users = h i; current = current i } in
    changed
    ∙ ap (λ c. Spec.set_password (text new_password) (record { users = users s; current = c }))
        (sym current)

-- Replacing the password does what the directory says.
pub replace_password_refines :
    (old_password new_password : List ℕ) {s : State}
    → IsValid s
    → may_change old_password new_password s ≡ true
    → directory (replace_password new_password s)
      ≡ Spec.change (text old_password) (text new_password) (directory s)
unfolding Spec.change
replace_password_refines old_password new_password {s} v h =
    let needs = may_change_needs old_password new_password s h in
    let (k, e) = pos_of_current s.current_account needs.1 in
    rw (sym (may_change-directory old_password new_password v) ∙ h)
      (set_password-users new_password s k e (users-replace_password new_password k v e needs.0))

add_refused :
    (name password : List ℕ) {s : State}
    → IsValid s
    → may_add name password s ≡ false
    → directory s ≡ Spec.add (text name) (text password) (directory s)
unfolding Spec.add
add_refused name password {s} v h = rw (sym (may_add-directory name password v) ∙ h)

change_refused :
    (old_password new_password : List ℕ) {s : State}
    → IsValid s
    → may_change old_password new_password s ≡ false
    → directory s ≡ Spec.change (text old_password) (text new_password) (directory s)
unfolding Spec.change
change_refused old_password new_password {s} v h =
    rw (sym (may_change-directory old_password new_password v) ∙ h)

module _ (F : Firmware) (ready : Bool) where
  -- The answer, the state and the world after a call that is allowed or refused, and that makes
  -- `s'` of the state when it is allowed.
  abbrev pub outcome : Bool → State → State → F.World → Bool × State × F.World
  outcome allowed s' s w =
      if allowed then ((save F ready s' w).0, s', (save F ready s' w).1) else (false, s, w)

  pub add-outcome :
      (name password : List ℕ) (s : State) (w : F.World)
      → add F ready name password s w
        ≡ outcome (may_add name password s) (append_account name password s) s w
  unfolding add
  add-outcome name password s w = refl

  pub change_password-outcome :
      (old_password new_password : List ℕ) (s : State) (w : F.World)
      → change_password F ready old_password new_password s w
        ≡ outcome (may_change old_password new_password s) (replace_password new_password s) s w
  unfolding change_password
  change_password-outcome old_password new_password s w = refl

  -- On a valid table accounts_add leaves the users that the directory's `add` leaves, whether or
  -- not the file could be written. It answers 1 exactly when the directory allows the addition and
  -- the new table was saved, and it calls the firmware only when the addition is allowed.
  pub add_refines :
      (name password : List ℕ) {s : State} (w : F.World)
      → IsValid s
      → let (done, s', w') = add F ready name password s w in
        let allowed = Spec.may_add (text name) (text password) (directory s) in
        (directory s' ≡ Spec.add (text name) (text password) (directory s))
        × (done ≡ (allowed && (save F ready s' w).0))
        × (w' ≡ (if allowed then (save F ready s' w).1 else w))
  add_refines name password {s} w v = elim (Bool-cases (may_add name password s)) [
    | inl h ↦
        rw (add-outcome, sym (may_add-directory name password v), h)
          (append_account_refines name password v h, refl, refl)
    | inr h ↦
        rw (add-outcome, sym (may_add-directory name password v), h)
          (add_refused name password v h, refl, refl)
  ]

  -- The same of accounts_change_password and the directory's `change`.
  pub change_password_refines :
      (old_password new_password : List ℕ) {s : State} (w : F.World)
      → IsValid s
      → let (done, s', w') = change_password F ready old_password new_password s w in
        let allowed = Spec.may_change (text old_password) (text new_password) (directory s) in
        (directory s' ≡ Spec.change (text old_password) (text new_password) (directory s))
        × (done ≡ (allowed && (save F ready s' w).0))
        × (w' ≡ (if allowed then (save F ready s' w).1 else w))
  change_password_refines old_password new_password {s} w v =
      elim (Bool-cases (may_change old_password new_password s)) [
        | inl h ↦
            rw (change_password-outcome, sym (may_change-directory old_password new_password v), h)
              (replace_password_refines old_password new_password v h, refl, refl)
        | inr h ↦
            rw (change_password-outcome, sym (may_change-directory old_password new_password v), h)
              (change_refused old_password new_password v h, refl, refl)
      ]
