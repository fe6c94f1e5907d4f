-- ===== src/Shell/Restart.antt =====
-- A user made at the terminal is there at the next start.
use existent_os.Prelude.{
  ℕ, suc, ◌≡◌, refl, ◌∙◌, Bool, true, List, [], ◌∷◌, none, some, if◌then◌else◌,
}
use existent_os.CString.{text, chars}
use existent_os.Firmware.{Firmware}
use existent_os.Firmware.OpenFile.{IsDurable}
use existent_os.Accounts.State as Accounts
use existent_os.Accounts.Valid.{directory, IsValid, IsChars}
use existent_os.Accounts.Directory as Spec
use existent_os.Accounts.Restart.{init-add}
use existent_os.Accounts.SignIn.{signs_in}
use existent_os.Shell.State.{State}
use existent_os.Shell.Run.{Run, done}
use existent_os.Shell.Execute.{execute_command}
use existent_os.Shell.Users.{IsUseradd, execute_command-IsAdded}

module _ (F : Firmware) (ready : Bool) (fresh : ℕ → List ℕ) where
  -- A run from `s` that ended with 0, said "user created", and left a file with which the start from `t`
  -- has the new user, who gets in with the password only.
  pub record IsCreated (name password attempt : List ℕ) (t : Accounts.State) (s : State F.World)
      (r : Run F.World ℕ) : Type 0 where
    pub state : State F.World
    pub ended : r ≡ done 0 state
    pub told : state.written ≡ (13 ∷ 10 ∷ []) ∷ chars "user created" ∷ s.written
    pub users :
        directory (Accounts.init F ready t state.world).0
        ≡ record (Spec.add (text name) (text password) (directory s.accounts)) { current = none }
    pub signs :
        let granted = Spec.same (text password) (text attempt) in
        signs_in name attempt (Accounts.init F ready t state.world).0
        ≡ (granted, (if granted then some s.accounts.account_count else none))

  -- A command line `useradd`, a name and a password of CHAR16 values, alone and without a pipe, on a
  -- valid table, any fuel above zero and firmware that keeps what is written: where accounts_add
  -- answers 1, terminal_execute_command ends with 0 and writes "user created", and accounts_init at
  -- the next start, from any state, has the users of the directory's add and nobody signed in, and
  -- lets the new user in with the given password and with no other.
  pub execute_command-IsCreated :
      (fuel : ℕ) (command name password attempt : List ℕ) (t : Accounts.State) (s : State F.World)
      → IsDurable F ready
      → IsChars name
      → IsChars password
      → IsValid s.accounts
      → IsUseradd command name password s
      → (Accounts.add F ready name password s.accounts s.world).0 ≡ true
      → IsCreated name password attempt t s (execute_command F ready fresh (suc fuel) command s)
  execute_command-IsCreated fuel command name password attempt t s durable cn cp v u saved =
      let added = execute_command-IsAdded F ready fresh fuel command name password s v u in
      let (users, signs) = init-add F ready name password attempt t s.world durable cn cp v saved in
      record {
        state = added.state;
        ended = added.ended;
        told = added.told ∙ rw saved refl;
        users = rw added.world users;
        signs = rw added.world signs;
      }
