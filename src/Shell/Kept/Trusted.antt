-- ===== src/Shell/Kept/Trusted.antt =====
-- The table of users under the commands of the terminal.
use existent_os.Prelude.{ℕ, ◌≡◌, refl, ◌∙◌, ap, Bool, List, [], ◌∷◌}
use existent_os.Firmware.{Firmware}
use existent_os.Accounts.State as Accounts
use existent_os.Accounts.Directory as Spec
use existent_os.Accounts.Valid.{users, directory, IsValid, IsChars}
use existent_os.Accounts.Refine.{login_refines}
use existent_os.Accounts.Invariant.{login-IsValid, add-IsValid, change_password-IsValid}
use existent_os.Accounts.Session.{Request, admins, admins-sign_in, admins-run, perform, run}
use existent_os.Shell.State.{State}
use existent_os.Shell.Execute.{execute_command}
use existent_os.Shell.Session.{run_shell}
use existent_os.Shell.Kept.{IsKept, IsWide, Good, Ends, map-Ends}
use existent_os.Shell.Kept.Sessions.{execute_command-Ends, run_shell-Ends}

-- A valid table whose administrators have these names.
pub record IsTrusted (names : List (List ℕ)) (a : Accounts.State) : Type 0 where
  pub valid : IsValid a
  pub same : admins (users a) ≡ names

-- The table is valid, and its administrators are those of the state before.
abbrev pub KeepsTable : {World A : Type 0} → State World → A → State World → Type 0
KeepsTable s a t = IsValid t.accounts × (admins (users t.accounts) ≡ admins (users s.accounts))

login-admins :
    (name password : List ℕ) (a : Accounts.State)
    → admins (users (Accounts.login name password a).1) ≡ admins (users a)
unfolding Spec.login
login-admins name password a =
    ap (λ r. admins r.1.users) (login_refines name password a) ∙ admins-sign_in _ (directory a)

module _ (F : Firmware) (ready : Bool) where
  add-admins :
      (name password : List ℕ) (a : Accounts.State) (w : F.World)
      → IsChars name
      → IsChars password
      → IsValid a
      → admins (users (Accounts.add F ready name password a w).1) ≡ admins (users a)
  unfolding run perform
  add-admins name password a w cn cp v =
      admins-run F ready (Request.add name password ∷ []) w ((cn, cp), tt) v

  change_password-admins :
      (old_password new_password : List ℕ) (a : Accounts.State) (w : F.World)
      → IsChars new_password
      → IsValid a
      → admins (users (Accounts.change_password F ready old_password new_password a w).1)
        ≡ admins (users a)
  unfolding run perform
  change_password-admins old_password new_password a w c v =
      admins-run F ready (Request.change_password old_password new_password ∷ []) w (c, tt) v

  IsTrusted-IsKept : (names : List (List ℕ)) → IsKept F ready (IsTrusted names)
  IsTrusted-IsKept names = record {
    login = λ name password a t. record {
      valid = login-IsValid name password t.valid;
      same = login-admins name password a ∙ t.same;
    };
    add = λ name password a w cn cp t. record {
      valid = add-IsValid F ready name password w cn cp t.valid;
      same = add-admins name password a w cn cp t.valid ∙ t.same;
    };
    change = λ old_password new_password a w c t. record {
      valid = change_password-IsValid F ready old_password new_password w c t.valid;
      same = change_password-admins old_password new_password a w c t.valid ∙ t.same;
    };
  }

  module _ (fresh : ℕ → List ℕ) (wide : IsWide F fresh) (s : State F.World) (good : Good IsValid s)
      (fuel : ℕ) where
    trusted : Good (IsTrusted (admins (users s.accounts))) s
    trusted = record {
      accounts = record { valid = good.accounts; same = refl };
      keys = good.keys;
      line = good.line;
    }

    -- With a valid table, and CHAR16 values in the command, the keys, the static line, what is read
    -- and the stack: where terminal_execute_command ends, the table is valid and the administrators
    -- are the same, whatever the command, its scripts and the firmware do.
    pub execute_command-KeepsTable :
        (command : List ℕ)
        → IsChars command
        → Ends (KeepsTable s) (execute_command F ready fresh fuel command s)
    execute_command-KeepsTable command c =
        map-Ends _ (KeepsTable s) (execute_command F ready fresh fuel command s)
          (λ a t g. (g.accounts.valid, g.accounts.same))
          (execute_command-Ends F ready fresh _ (IsTrusted-IsKept _) wide fuel command s c trusted)

    -- The same of a whole session of terminal_run_shell.
    pub run_shell-KeepsTable :
        Ends (KeepsTable s) (run_shell (execute_command F ready fresh fuel) fresh s)
    run_shell-KeepsTable =
        map-Ends _ (KeepsTable s) (run_shell (execute_command F ready fresh fuel) fresh s)
          (λ a t g. (g.accounts.valid, g.accounts.same))
          (run_shell-Ends F ready fresh _ (IsTrusted-IsKept _) wide
            (execute_command F ready fresh fuel)
            (execute_command-Ends F ready fresh _ (IsTrusted-IsKept _) wide fuel) s trusted)
