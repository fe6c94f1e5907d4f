-- ===== src/Accounts/SignIn.antt =====
-- Who can sign in after an account was added or a password changed.
use existent_os.Prelude.{
  ℕ, zero, suc, ◌+◌, ◌<◌, ◌≡◌, refl, sym, ap, ◌∙◌, Bool, true, false, ◌&&◌, List, [], ◌∷◌, Option,
  none, some, arith, length, get_or, get_or-append_length, get_or-set_self, All, All-get_or_below,
  if◌then◌else◌, ltb, ◌||◌,
}
use existent_os.Prelude.Int.{pos, is_negative, to_ℕ}
use existent_os.CString.{text}
use existent_os.Firmware.{Firmware}
use existent_os.Accounts.State.{
  State, account, login, add, append_account, replace_password, change_password, may_add,
  may_change,
}
use existent_os.Accounts.Valid.{users, view, directory, IsValid, IsChars}
use existent_os.Accounts.Requests.{
  length-users, user-directory, may_add-IsAccepted, users-append_account, users-replace_password,
  may_change_needs,
}
use existent_os.Accounts.Refine.{login_refines, add-outcome, change_password-outcome}
use existent_os.Accounts.Invariant.{append_account-IsValid, replace_password-IsValid}
use existent_os.Accounts.Directory as Spec
use existent_os.Accounts.Directory.{User, Directory, same, same_iff, find_user, Distinct, stranger}

same_comm : (a b : List ℕ) → same a b ≡ same b a
unfolding same
same_comm [] [] = refl
same_comm [] (y ∷ b) = refl
same_comm (x ∷ a) [] = refl
same_comm (x ∷ a) (y ∷ b) = ground (arith, same_comm a b)

find_user-absent :
    (name password : List ℕ) (us : List User) (i : ℕ)
    → All (λ v. same name v.name ≡ false) us
    → find_user (λ v. same v.name name && same v.password password) us i ≡ none
unfolding find_user
find_user-absent name password [] i h = refl
find_user-absent name password (u ∷ us) i h =
    ground (arith, same_comm name u.name, find_user-absent name password us (i + 1) h.1)

-- With distinct names, a search under the name of the user at `k` finds that user or nobody.
find_user-name :
    (us : List User) (k i : ℕ) (password : List ℕ)
    → Distinct us
    → k < length us
    → let u = get_or us k stranger in
      find_user (λ v. same v.name u.name && same v.password password) us i
      ≡ (if same u.password password then some (i + k) else none)
unfolding find_user
find_user-name [] k i password d h = absurd (omega arith)
find_user-name (u ∷ us) zero i password d h =
    ground (arith, (same_iff u.name u.name).1 refl, find_user-absent u.name password us (i + 1) d.0)
find_user-name (u ∷ us) (suc k) i password d h =
    let other : same u.name (get_or us k stranger).name ≡ false =
      All-get_or_below (λ v. same u.name v.name ≡ false) us k stranger (omega arith) d.0 in
    let shift : i + 1 + k ≡ i + suc k = omega arith in
    rw other (
      find_user-name us k (i + 1) password d.1 (omega arith)
      ∙ ap (λ (n : ℕ). if same (get_or us k stranger).password password then some n else none)
          shift)

-- Who is signed in after a search: the index, and whether it found one.
abbrev pub signs_in : List ℕ → List ℕ → State → Bool × Option ℕ
signs_in name password s = let (done, s') = login name password s in (done, (directory s').current)

-- The answer and the signed-in user of the directory's `sign_in`.
abbrev answer : Bool × Directory → Bool × Option ℕ
answer (done, d) = (done, d.current)

spec_sign_in :
    (granted : Bool) (k : ℕ) (d : Directory)
    → answer (Spec.sign_in (if granted then some k else none) d)
      ≡ (granted, (if granted then some k else d.current))
unfolding Spec.sign_in
spec_sign_in true k d = refl
spec_sign_in false k d = refl

pub login-user :
    (k : ℕ) (u : User) (name password : List ℕ) {s : State}
    → IsValid s
    → k < s.account_count
    → get_or (users s) k stranger ≡ u
    → text name ≡ u.name
    → let granted = same u.password (text password) in
      signs_in name password s ≡ (granted, (if granted then some k else (directory s).current))
unfolding Spec.login
login-user k u name password {s} v h at_k e =
    ap answer (login_refines name password s)
    ∙ ap (λ o. answer (Spec.sign_in o (directory s))) found
    ∙ spec_sign_in (same u.password (text password)) k (directory s)
  where
    found :
        find_user (λ v. same v.name (text name) && same v.password (text password)) (users s) 0
        ≡ (if same u.password (text password) then some k else none)
    found = rw e (
        rw at_k at
          (find_user-name (users s) k 0 (text password) v.distinct (omega (arith, length-users s)))
        ∙ ap (λ (n : ℕ). if same u.password (text password) then some n else none) (omega arith))

-- On a valid table, signing in under the name of the user at index `k` succeeds exactly with that
-- user's password, and then that user is signed in; otherwise the signed-in user stays.
pub login-name :
    (k : ℕ) (password : List ℕ) {s : State}
    → IsValid s
    → k < s.account_count
    → let granted = same (text (account s k).password) (text password) in
      signs_in (account s k).name password s
      ≡ (granted, (if granted then some k else (directory s).current))
login-name k password {s} v h =
    login-user k (view (account s k)) (account s k).name password v h (user-directory s k h) refl

login-append_account :
    (name password attempt : List ℕ) {s : State}
    → IsChars name
    → IsChars password
    → IsValid s
    → may_add name password s ≡ true
    → let granted = same (text password) (text attempt) in
      signs_in name attempt (append_account name password s)
      ≡ (granted, (if granted then some s.account_count else (directory s).current))
unfolding append_account
login-append_account name password attempt {s} cn cp v h =
    let ok = may_add-IsAccepted name password v h in
    let u : User = record { name = text name; password = text password; admin = false } in
    login-user s.account_count u name attempt (append_account-IsValid name password cn cp v h)
      (omega arith)
      (rw (users-append_account name password v ok)
        (get_or-append_length (users s) u stranger s.account_count (sym (length-users s))))
      refl

pub below_of_signed :
    (s : State) (k : ℕ)
    → s.current_account ≡ pos k
    → (is_negative s.current_account || ltb (to_ℕ s.current_account) s.account_count) ≡ true
    → k < s.account_count
below_of_signed s k e h = let h' : ltb k s.account_count ≡ true = rw e at h in ground arith

pub account_count-replace_password :
    (new : List ℕ) (s : State) → (replace_password new s).account_count ≡ s.account_count
unfolding replace_password
account_count-replace_password new s = refl

login-replace_password :
    (old new attempt : List ℕ) (k : ℕ) {s : State}
    → IsChars new
    → IsValid s
    → s.current_account ≡ pos k
    → may_change old new s ≡ true
    → (login (account s k).name attempt (replace_password new s)).0 ≡ same (text new) (text attempt)
login-replace_password old new attempt k {s} cn v e h =
    let word = (may_change_needs old new s h).0 in
    let below : k < s.account_count = below_of_signed s k e v.signed in
    let old_user = user-directory s k below in
    let u : User = record (get_or (users s) k stranger) { password = text new } in
    ap (λ p. p.0)
      (login-user k u (account s k).name attempt (replace_password-IsValid new cn k v e word)
        (rw account_count-replace_password below)
        (rw (users-replace_password new k v e word)
          (get_or-set_self (users s) k u stranger (omega (arith, length-users s, below))))
        (ap (λ (x : User). x.name) (sym old_user)))

module _ (F : Firmware) (ready : Bool) where
  -- After an accepted addition the new user can sign in, with the given password only, and is then
  -- the user at the end of the table.
  pub login-add :
      (name password attempt : List ℕ) {s : State} (w : F.World)
      → IsChars name
      → IsChars password
      → IsValid s
      → may_add name password s ≡ true
      → let granted = same (text password) (text attempt) in
        signs_in name attempt (add F ready name password s w).1
        ≡ (granted, (if granted then some s.account_count else (directory s).current))
  login-add name password attempt {s} w cn cp v h =
      rw (add-outcome F ready name password s w, h)
        (login-append_account name password attempt cn cp v h)

  -- On a valid table with a user signed in, after an accepted change to a password of CHAR16 values,
  -- a sign-in with that user's name succeeds with the new password and with no other.
  pub login-change_password :
      (old new attempt : List ℕ) (k : ℕ) {s : State} (w : F.World)
      → IsChars new
      → IsValid s
      → s.current_account ≡ pos k
      → may_change old new s ≡ true
      → (login (account s k).name attempt (change_password F ready old new s w).1).0
        ≡ same (text new) (text attempt)
  login-change_password old new attempt k {s} w cn v e h =
      rw (change_password-outcome F ready old new s w, h)
        (login-replace_password old new attempt k cn v e h)
