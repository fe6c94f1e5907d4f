-- ===== src/Accounts/Start.antt =====
-- The first start: accounts_init on a volume with no user file.
use existent_os.Prelude.{
  ◌≡◌, refl, sym, ap, ◌∙◌, Bool, true, false, [], ◌∷◌, none, arith, length, All, All-set,
  length-set, get_or-set_self, All-get_or,
}
use mathlib.Core.Path.{subst}
use existent_os.CString.{text}
use existent_os.Firmware.{Firmware, mode_read}
use existent_os.Accounts.Image.{Account, IsSized, max_users, blank}
use existent_os.Accounts.State.{
  State, account, reset, admin_name, admin_password, accounts_open, load, init,
}
use existent_os.Accounts.Valid.{view, users, directory, IsValid, text-copy}
use existent_os.Accounts.Invariant.{copy-IsChars, length-copy}
use existent_os.Accounts.Directory.{User, Distinct, Named}

-- "admin" with the password "fisix", an administrator.
abbrev pub administrator : User
administrator = record { name = text admin_name; password = text admin_password; admin = true }

module _ (s : State) (table : length s.accounts ≡ max_users) (sized : All IsSized s.accounts) where
  first-IsSized : IsSized (account s 0)
  unfolding account
  first-IsSized = All-get_or IsSized s.accounts 0 blank sized (omega arith)

  users-reset : users (reset s) ≡ administrator ∷ []
  unfolding reset account
  users-reset =
      ap (λ (a : Account). view a ∷ []) (get_or-set_self s.accounts 0 _ blank (omega arith)) ∙ λ i.
      record {
        name = text-copy (account s 0).name admin_name first-IsSized.name_cells refl i;
        password =
            text-copy (account s 0).password admin_password first-IsSized.password_cells refl i;
        admin = true;
      }
      ∷ []

  reset-IsValid : IsValid (reset s)
  unfolding reset
  reset-IsValid = record {
    table = length-set s.accounts 0 _ ∙ table;
    sized = All-set IsSized s.accounts 0 _ sized (record {
      name_cells = length-copy _ admin_name ∙ first-IsSized.name_cells;
      password_cells = length-copy _ admin_password ∙ first-IsSized.password_cells;
      name_chars = copy-IsChars _ admin_name first-IsSized.name_chars (omega arith);
      password_chars = copy-IsChars _ admin_password first-IsSized.password_chars (omega arith);
      admin_int = omega arith;
    });
    room = omega arith;
    signed = refl;
    named = subst Named (sym users-reset) (refl, tt);
    distinct = subst Distinct (sym users-reset) (tt, tt);
  }

  -- Where the user file cannot be opened, accounts_init leaves a valid table of one user, the
  -- administrator, and nobody is signed in.
  pub init_fresh :
      (F : Firmware) (ready : Bool) (w : F.World)
      → (accounts_open F ready mode_read w).0 ≡ false
      → let s' = (init F ready s w).0 in
        IsValid s' × (directory s' ≡ record { users = administrator ∷ []; current = none })
  unfolding init load
  init_fresh F ready w absent =
      rw absent (reset-IsValid, λ i. record { users = users-reset i; current = none })
