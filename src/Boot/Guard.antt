-- ===== src/Boot/Guard.antt =====
-- Who is signed in when efi_main ends.
use existent_os.Prelude.{
  ℕ, ◌≡◌, refl, Bool, true, false, not, ◌&&◌, List, [], Option, none, some, arith, ltb, ◌==◌, All,
  Bool-cases, inl, inr,
}
use existent_os.Prelude.Int.{is_negative, to_ℕ}
use existent_os.Prelude.Scan.{first_index, first_index-IsFirst}
use existent_os.Firmware.{Firmware}
use existent_os.Accounts.State as Accounts
use existent_os.Accounts.Valid.{IsChars}
use existent_os.Accounts.Refine.{outcome, add-outcome, change_password-outcome}
use existent_os.Boot.{MemoryMap, Outcome, failed, left, again}
use existent_os.Boot.Loading.{Image, load_kernel}
use existent_os.Boot.Main.{
  boot_message, init_accounts, init_eosfs, fail, after_leaving, start_kernel, efi_main,
}
use existent_os.Shell.State.{State, loaded, write, write_line}
use existent_os.Shell.Programs
use existent_os.Shell.Execute.{execute_command}
use existent_os.Shell.Session.{batch_lines, run_batch, run_shell, autoexec_batch}
use existent_os.Shell.Kept.{IsKept, IsWide, Good, Ends, and_then-Ends}
use existent_os.Shell.Kept.Pure.{write-Good, write_line-Good}
use existent_os.Shell.Kept.Actions.{login-Ends}
use existent_os.Shell.Kept.Sessions.{execute_command-Ends, run_batch_lines-Ends, run_shell-Ends}

-- Somebody is signed in, and is a user of the table.
abbrev pub IsSignedIn : Accounts.State → Type 0
IsSignedIn a =
    (not (is_negative a.current_account) && ltb (to_ℕ a.current_account) a.account_count) ≡ true

-- No condition.
abbrev Any : Accounts.State → Type 0
Any a = Unit {0}

sign_in-IsSignedIn :
    (o : Option ℕ) (a : Accounts.State)
    → ((i : ℕ) → o ≡ some i → ltb i a.account_count ≡ true)
    → (Accounts.sign_in o a).0 ≡ true
    → IsSignedIn (Accounts.sign_in o a).1
unfolding Accounts.sign_in
sign_in-IsSignedIn none a below h = absurd (cc)
sign_in-IsSignedIn (some i) a below h = below i refl

sign_in_keeps :
    (o : Option ℕ) (a : Accounts.State)
    → ((i : ℕ) → o ≡ some i → ltb i a.account_count ≡ true)
    → IsSignedIn a
    → IsSignedIn (Accounts.sign_in o a).1
unfolding Accounts.sign_in
sign_in_keeps none a below h = h
sign_in_keeps (some i) a below h = below i refl

module _ (name password : List ℕ) (a : Accounts.State) where
  found_below :
      (i : ℕ)
      → first_index (Accounts.credentials_match a name password) a.account_count 0 ≡ some i
      → ltb i a.account_count ≡ true
  found_below i e =
      let found = first_index-IsFirst _ a.account_count 0 i e in ground (arith, found.below)

  login-IsSignedIn :
      (Accounts.login name password a).0 ≡ true → IsSignedIn (Accounts.login name password a).1
  unfolding Accounts.login
  login-IsSignedIn h = sign_in-IsSignedIn _ a found_below h

  login_keeps : IsSignedIn a → IsSignedIn (Accounts.login name password a).1
  unfolding Accounts.login
  login_keeps h = sign_in_keeps _ a found_below h

module _ (F : Firmware) (ready : Bool) where
  outcome_keeps :
      (P : Accounts.State → Type 0) (allowed : Bool) (a' a : Accounts.State) (w : F.World)
      → P a'
      → P a
      → P (outcome F ready allowed a' a w).1
  outcome_keeps P true a' a w h k = h
  outcome_keeps P false a' a w h k = k

  IsSignedIn-IsKept : IsKept F ready IsSignedIn
  unfolding Accounts.append_account Accounts.replace_password
  IsSignedIn-IsKept = record {
    login = λ name password a h. login_keeps name password a h;
    add = λ name password a w cn cp h. rw (add-outcome F ready name password a w) (
        outcome_keeps IsSignedIn (Accounts.may_add name password a)
          (Accounts.append_account name password a) a w (ground arith) h);
    change = λ old_password new_password a w c h.
        rw (change_password-outcome F ready old_password new_password a w) (
          outcome_keeps IsSignedIn (Accounts.may_change old_password new_password a)
            (Accounts.replace_password new_password a) a w h h);
  }

  Any-IsKept : IsKept F ready Any
  Any-IsKept = record {
    login = λ name password a h. tt;
    add = λ name password a w cn cp h. tt;
    change = λ old_password new_password a w c h. tt;
  }

autoexec-IsChars : All IsChars (batch_lines [] autoexec_batch)
unfolding batch_lines
autoexec-IsChars = omega arith

module _ (F : Firmware) (allocate_pages : ℕ → ℕ → F.World → ℕ × ℕ × F.World)
    (get_memory_map : F.World → MemoryMap × F.World)
    (exit_boot_services : ℕ → F.World → ℕ × F.World) (ready : Bool) (fresh : ℕ → List ℕ)
    (wide : IsWide F fresh) where
  -- The state at the end, whatever the end is.
  abbrev Guarded : {A : Type 0} → A → State F.World → Type 0
  Guarded e t = IsSignedIn t.accounts

  after_leaving-Ends :
      (r : Option (Outcome × F.World)) (image : Option Image) (s : State F.World)
      → IsSignedIn s.accounts
      → Ends Guarded
          (after_leaving F allocate_pages get_memory_map exit_boot_services ready fresh r image s)
  unfolding after_leaving fail write_line write
  after_leaving-Ends none image s h = tt
  after_leaving-Ends (some (left total, w)) image s h = h
  after_leaving-Ends (some (failed status, w)) image s h = elim (Bool-cases (status == 0)) [
    | inl e ↦ rw e h
    | inr e ↦ rw e h
  ]
  after_leaving-Ends (some (again, w)) image s h = tt

  start_kernel-Ends :
      (fuel : ℕ) (s : State F.World)
      → IsSignedIn s.accounts
      → Ends Guarded
          (start_kernel F allocate_pages get_memory_map exit_boot_services ready fresh fuel s)
  unfolding start_kernel fail write_line write
  start_kernel-Ends fuel s h =
      elim (Bool-cases ((load_kernel F allocate_pages ready s.world).0 == 0)) [
        | inl e ↦ rw e (after_leaving-Ends _ _ _ h)
        | inr e ↦ rw e h
      ]

  run_batch-Ends :
      (fuel : ℕ) (s : State F.World)
      → Good Any s
      → Ends (λ _ t. Good Any t) (run_batch (execute_command F ready fresh fuel) s)
  unfolding run_batch
  run_batch-Ends fuel s g =
      run_batch_lines-Ends F ready fresh Any (Any-IsKept F ready) wide
        (execute_command F ready fresh fuel)
        (execute_command-Ends F ready fresh Any (Any-IsKept F ready) wide fuel)
        (batch_lines [] autoexec_batch) _ autoexec-IsChars (write_line-Good Any _ s g)

  terminal_login-IsSignedIn :
      (s : State F.World) → Good Any s → Ends (λ _ t. Good IsSignedIn t) (Programs.login fresh s)
  terminal_login-IsSignedIn s g =
      login-Ends Any fresh wide.stack IsSignedIn (λ name password a h. tt)
        (λ name password a h found. login-IsSignedIn name password a found) s g

  run_shell_keeps :
      (fuel : ℕ) (s : State F.World)
      → Good IsSignedIn s
      → Ends (λ _ t. Good IsSignedIn t) (run_shell (execute_command F ready fresh fuel) fresh s)
  run_shell_keeps fuel s g =
      run_shell-Ends F ready fresh IsSignedIn (IsSignedIn-IsKept F ready) wide
        (execute_command F ready fresh fuel)
        (execute_command-Ends F ready fresh IsSignedIn (IsSignedIn-IsKept F ready) wide fuel) s g

  -- With CHAR16 values in the keys, in what is read and on the stack: where efi_main ends from the
  -- loaded state, with the call of the kernel or without, a user of the table is signed in, whatever
  -- is typed and whatever the scripts and the firmware do.
  pub efi_main-IsSignedIn :
      (keys : List ℕ) (w : F.World) (fuel : ℕ)
      → IsChars keys
      → Ends
          (λ e t. IsSignedIn t.accounts)
          (efi_main F allocate_pages get_memory_map exit_boot_services ready fresh fuel
            (loaded keys w))
  unfolding efi_main init_accounts init_eosfs
  efi_main-IsSignedIn keys w fuel c =
      and_then-Ends (λ _ t. Good Any t) Guarded (run_batch (execute_command F ready fresh fuel) _) _
        (run_batch-Ends fuel _
          (write-Good Any boot_message _ (record { accounts = tt; keys = c; line = omega arith })))
        (λ _ t g.
          and_then-Ends (λ _ u. Good IsSignedIn u) Guarded (Programs.login fresh t) _
            (terminal_login-IsSignedIn t g)
            (λ _ u h.
              and_then-Ends (λ _ v. Good IsSignedIn v) Guarded
                (run_shell (execute_command F ready fresh fuel) fresh u) _
                (run_shell_keeps fuel u h) (λ _ v k. start_kernel-Ends fuel v k.accounts)))
