-- ===== src/Accounts/Session.antt =====
-- Sequences of calls of accounts.c.
use existent_os.Prelude.{
  ℕ, zero, suc, ◌≡◌, refl, ap, ◌∙◌, Bool, false, List, [], ◌∷◌, ◌++◌, Option, none, some, arith,
  get_or, set, All, inl, inr, Bool-cases, if◌then◌else◌,
}
use existent_os.CString.{text}
use existent_os.Firmware.{Firmware}
use existent_os.Accounts.State.{State}
use existent_os.Accounts.State
use existent_os.Accounts.Valid.{users, directory, IsValid, IsChars}
use existent_os.Accounts.Refine.{login_refines, add_refines, change_password_refines}
use existent_os.Accounts.Invariant.{login-IsValid, add-IsValid, change_password-IsValid}
use existent_os.Accounts.Directory as Spec
use existent_os.Accounts.Directory.{User, Directory, stranger}

-- The calls that change the table or the signed-in user, each with two strings.
pub data Request : Type 0 where
  login : List ℕ → List ℕ → Request
  add : List ℕ → List ℕ → Request
  change_password : List ℕ → List ℕ → Request

abbrev pub IsRequest : Request → Type 0
IsRequest (login name password) = Unit {0}
IsRequest (add name password) = IsChars name × IsChars password
IsRequest (change_password old new) = IsChars new

module _ (F : Firmware) (ready : Bool) where
  unfoldable pub perform : Request → State → F.World → State × F.World
  perform (login name password) s w = ((State.login name password s).1, w)
  perform (add name password) s w =
      let (_, s', w') = State.add F ready name password s w in (s', w')
  perform (change_password old new) s w =
      let (_, s', w') = State.change_password F ready old new s w in (s', w')

  unfoldable pub run : List Request → State → F.World → State × F.World
  run [] s w = (s, w)
  run (r ∷ rs) s w = let (s', w') = perform r s w in run rs s' w'

unfoldable pub spec_perform : Request → Directory → Directory
spec_perform (login name password) d = (Spec.login (text name) (text password) d).1
spec_perform (add name password) d = Spec.add (text name) (text password) d
spec_perform (change_password old new) d = Spec.change (text old) (text new) d

unfoldable pub spec_run : List Request → Directory → Directory
spec_run [] d = d
spec_run (r ∷ rs) d = spec_run rs (spec_perform r d)

-- The names of the administrators.
unfoldable pub admins : List User → List (List ℕ)
admins [] = []
admins (u ∷ us) = let rest = admins us in if u.admin then u.name ∷ rest else rest

admins-append : (us : List User) (u : User) → u.admin ≡ false → admins (us ++ (u ∷ [])) ≡ admins us
unfolding admins
admins-append [] u h = ground arith
admins-append (v ∷ us) u h = ground (arith, admins-append us u h)

admins-set :
    (us : List User) (k : ℕ) (password : List ℕ)
    → admins (set us k (record (get_or us k stranger) { password = password })) ≡ admins us
unfolding admins
admins-set [] k password = refl
admins-set (u ∷ us) zero password = refl
admins-set (u ∷ us) (suc k) password = ground (arith, admins-set us k password)

admins-set_password :
    (c : Option ℕ) (password : List ℕ) (us : List User)
    → admins (Spec.set_password password (record { users = us; current = c })).users ≡ admins us
unfolding Spec.set_password
admins-set_password none password us = refl
admins-set_password (some k) password us = admins-set us k password

pub admins-sign_in :
    (o : Option ℕ) (d : Directory) → admins (Spec.sign_in o d).1.users ≡ admins d.users
unfolding Spec.sign_in
admins-sign_in none d = refl
admins-sign_in (some i) d = refl

admins-spec_perform :
    (r : Request) (d : Directory) → admins (spec_perform r d).users ≡ admins d.users
unfolding spec_perform Spec.login Spec.add Spec.change
admins-spec_perform (login name password) d = admins-sign_in _ d
admins-spec_perform (add name password) d =
    elim (Bool-cases (Spec.may_add (text name) (text password) d)) [
      | inl e ↦ rw e (admins-append d.users _ refl)
      | inr e ↦ rw e
    ]
admins-spec_perform (change_password old new) d =
    elim (Bool-cases (Spec.may_change (text old) (text new) d)) [
      | inl e ↦ rw e (admins-set_password d.current (text new) d.users)
      | inr e ↦ rw e
    ]

admins-spec_run :
    (rs : List Request) (d : Directory) → admins (spec_run rs d).users ≡ admins d.users
unfolding spec_run
admins-spec_run [] d = refl
admins-spec_run (r ∷ rs) d = admins-spec_run rs (spec_perform r d) ∙ admins-spec_perform r d

module _ (F : Firmware) (ready : Bool) where
  perform-IsValid :
      (r : Request) {s : State} (w : F.World)
      → IsRequest r
      → IsValid s
      → IsValid (perform F ready r s w).0
  unfolding perform
  perform-IsValid (login name password) w c v = login-IsValid name password v
  perform-IsValid (add name password) w c v = add-IsValid F ready name password w c.0 c.1 v
  perform-IsValid (change_password old new) w c v = change_password-IsValid F ready old new w c v

  -- Any sequence of calls keeps the table valid, whatever the firmware answers.
  pub run-IsValid :
      (rs : List Request) {s : State} (w : F.World)
      → All IsRequest rs
      → IsValid s
      → IsValid (run F ready rs s w).0
  unfolding run
  run-IsValid [] w c v = v
  run-IsValid (r ∷ rs) {s} w c v =
      run-IsValid rs (perform F ready r s w).1 c.1 (perform-IsValid r w c.0 v)

  perform_refines :
      (r : Request) {s : State} (w : F.World)
      → IsValid s
      → directory (perform F ready r s w).0 ≡ spec_perform r (directory s)
  unfolding perform spec_perform
  perform_refines (login name password) {s} w v = ap (λ p. p.1) (login_refines name password s)
  perform_refines (add name password) w v = (add_refines F ready name password w v).0
  perform_refines (change_password old new) w v = (change_password_refines F ready old new w v).0

  -- Any sequence of calls leaves the directory that the same requests make of the first one,
  -- whatever the firmware answers.
  pub run_refines :
      (rs : List Request) {s : State} (w : F.World)
      → All IsRequest rs
      → IsValid s
      → directory (run F ready rs s w).0 ≡ spec_run rs (directory s)
  unfolding run spec_run
  run_refines [] w c v = refl
  run_refines (r ∷ rs) {s} w c v =
      run_refines rs (perform F ready r s w).1 c.1 (perform-IsValid r w c.0 v)
      ∙ ap (spec_run rs) (perform_refines r w v)

  -- No sequence of calls makes a user an administrator, or an administrator a plain user.
  pub admins-run :
      (rs : List Request) {s : State} (w : F.World)
      → All IsRequest rs
      → IsValid s
      → admins (users (run F ready rs s w).0) ≡ admins (users s)
  admins-run rs {s} w c v =
      ap (λ d. admins d.users) (run_refines rs w c v) ∙ admins-spec_run rs (directory s)
