-- ===== src/Accounts/Examples.antt =====
-- The theorems about kernel/drivers/accounts.c at a concrete table and firmware, and test runs.
use existent_os.Prelude.{
  ℕ, ◌≡◌, refl, true, false, ◌&&◌, List, [], ◌∷◌, ◌++◌, none, some, arith, take, replicate,
  if◌then◌else◌,
}
use existent_os.Prelude.Int.{pos, negsuc}
use existent_os.Prelude.Scan.{first_index}
use existent_os.CString.{text, equal, copy_upto}
use existent_os.Firmware.OpenFile.{open_file}
use existent_os.Firmware.OneFile.{one_file, one_file-IsDurable}
use existent_os.Accounts.Image.{blank, image}
use existent_os.Accounts.State.{
  State, accounts_open, initial, account, valid, is_admin, may_add, may_change, login, add,
  change_password, save, init, append_account, replace_password, copy, valid_from, may_change,
  current_user, user_at, name_taken, store_of, admin_name,
}
use existent_os.Accounts.Valid.{users, directory, IsValid}
use existent_os.Accounts.Refine.{add_refines, change_password_refines}
use existent_os.Accounts.Session.{
  Request, run, run-IsValid, run_refines, spec_run, admins, admins-run,
}
use existent_os.Accounts.SignIn.{signs_in, login-change_password}
use existent_os.Accounts.Persist.{init-save}
use existent_os.Accounts.Restart.{init-change_password}
use existent_os.Accounts.Start.{administrator, init_fresh}
use existent_os.Accounts.Directory as Spec
use existent_os.Accounts.Directory.{is_word}

-- An array of 32 cells.
abbrev pub cells : List ℕ → List ℕ
cells s = take 32 (s ++ replicate 32 0)

abbrev bob : List ℕ
bob = b'b' ∷ b'o' ∷ b'b' ∷ 0 ∷ []

abbrev secret : List ℕ
secret = b's' ∷ b'3' ∷ b'c' ∷ 0 ∷ []

abbrev pub fisix : List ℕ
fisix = b'f' ∷ b'i' ∷ b's' ∷ b'i' ∷ b'x' ∷ 0 ∷ []

-- The administrator, signed in, and no other user.
abbrev pub sample : State
sample = record {
  accounts =
      record { name = cells admin_name; password = cells fisix; admin = 1 } ∷ replicate 7 blank;
  account_count = 1;
  current_account = pos 0;
}

pub sample-IsValid : IsValid sample
unfolding account Spec.same
sample-IsValid = record {
  table = refl;
  sized = omega arith;
  room = omega arith;
  signed = refl;
  named = (refl, tt);
  distinct = (tt, tt);
}

may_add-sample : may_add bob secret sample ≡ true
unfolding may_add is_admin account valid name_taken first_index equal
may_add-sample = refl

may_change-sample : may_change fisix secret sample ≡ true
unfolding may_change account valid equal
may_change-sample = refl

-- A name with a space and an empty name are refused; 31 characters are accepted and 32 are not.
valid_limits :
    (valid (b'a' ∷ b' ' ∷ 0 ∷ []) ≡ false)
    × (valid (0 ∷ []) ≡ false)
    × (valid (replicate 31 b'a') ≡ true)
    × (valid (replicate 32 b'a') ≡ false)
unfolding valid
valid_limits = (refl, refl, refl, refl)

nobody_signed_in : text (current_user initial) ≡ b'n' ∷ b'o' ∷ b'b' ∷ b'o' ∷ b'd' ∷ b'y' ∷ []
unfolding current_user
nobody_signed_in = refl

users_listed :
    (user_at sample (pos 0) ≡ some (cells admin_name))
    × (user_at sample (pos 1) ≡ none)
    × (user_at sample (negsuc 0) ≡ none)
unfolding user_at account
users_listed = (refl, refl, refl)

add_refines_example :
    let (done, s', w') = add one_file true bob secret sample none in
    let allowed = Spec.may_add (text bob) (text secret) (directory sample) in
    (directory s' ≡ Spec.add (text bob) (text secret) (directory sample))
    × (done ≡ (allowed && (save one_file true s' none).0))
    × (w' ≡ (if allowed then (save one_file true s' none).1 else none))
add_refines_example = add_refines one_file true bob secret none sample-IsValid

change_password_refines_example :
    let (done, s', w') = change_password one_file true fisix secret sample none in
    let allowed = Spec.may_change (text fisix) (text secret) (directory sample) in
    (directory s' ≡ Spec.change (text fisix) (text secret) (directory sample))
    × (done ≡ (allowed && (save one_file true s' none).0))
    × (w' ≡ (if allowed then (save one_file true s' none).1 else none))
change_password_refines_example =
    change_password_refines one_file true fisix secret none sample-IsValid

abbrev script : List Request
script = Request.add bob secret ∷ Request.login bob secret ∷ Request.add secret bob ∷ []

run-IsValid_example : IsValid (run one_file true script sample none).0
run-IsValid_example = run-IsValid one_file true script none (omega arith) sample-IsValid

run_refines_example :
    directory (run one_file true script sample none).0 ≡ spec_run script (directory sample)
run_refines_example = run_refines one_file true script none (omega arith) sample-IsValid

admins-run_example : admins (users (run one_file true script sample none).0) ≡ admins (users sample)
admins-run_example = admins-run one_file true script none (omega arith) sample-IsValid

login-change_password_example :
    (login
      (account sample 0).name
      fisix
      (change_password one_file true fisix secret sample none).1).0
    ≡ Spec.same (text secret) (text fisix)
login-change_password_example =
    login-change_password one_file true fisix secret fisix 0 none (omega arith) sample-IsValid refl
      may_change-sample

save-sample : save one_file true sample none ≡ (true, some (image (store_of sample)))
unfolding save open_file image store_of
save-sample = refl

init-save_example :
    (init one_file true initial (some (image (store_of sample)))).0
    ≡ record sample { current_account = negsuc 0 }
init-save_example =
    init-save one_file true initial none (some (image (store_of sample))) one_file-IsDurable
      sample-IsValid (omega arith) save-sample

init_fresh_example :
    let s' = (init one_file true initial none).0 in
    IsValid s' × (directory s' ≡ record { users = administrator ∷ []; current = none })
unfolding accounts_open open_file
init_fresh_example = init_fresh initial refl (omega arith) one_file true none refl

add_done : (add one_file true bob secret sample none).0 ≡ true
unfolding add save open_file image append_account copy copy_upto is_admin valid valid_from
    name_taken first_index may_add equal account store_of
add_done = refl

change_done : (change_password one_file true fisix secret sample none).0 ≡ true
unfolding change_password save open_file image replace_password copy copy_upto valid valid_from
    may_change equal account store_of
change_done = refl

init-change_password_example :
    let r =
      (init one_file true initial (change_password one_file true fisix secret sample none).2).0 in
    let granted = Spec.same (text secret) (text fisix) in
    (directory r
      ≡ record (Spec.change (text fisix) (text secret) (directory sample)) { current = none })
    × (signs_in (account sample 0).name fisix r ≡ (granted, (if granted then some 0 else none)))
init-change_password_example =
    init-change_password one_file true fisix secret fisix 0 initial none one_file-IsDurable
      (omega arith) sample-IsValid refl change_done
