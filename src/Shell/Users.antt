-- ===== src/Shell/Users.antt =====
-- The useradd command on a whole command line.
use existent_os.Prelude.{
  ℕ, suc, ◌≡◌, refl, Bool, true, false, ap, List, [], ◌∷◌, arith, if◌then◌else◌,
}
use existent_os.CString.{text, chars}
use existent_os.Firmware.{Firmware}
use existent_os.Accounts.State as Accounts
use existent_os.Accounts.Valid.{directory, IsValid}
use existent_os.Accounts.Directory as Spec
use existent_os.Accounts.Refine.{add_refines}
use existent_os.Shell.State.{State, write, write_line}
use existent_os.Shell.Run.{Run, done}
use existent_os.Shell.Alone.{IsAlone, execute_command-perform}
use existent_os.Shell.Commands.{Command, command_of}
use existent_os.Shell.Dispatch.{command_of-entry}
use existent_os.Shell.Replies.{parse}
use existent_os.Shell.Execute.{add_user, perform, execute_command}

-- The command line as it is split: no `&` and no `|`, and the words `useradd`, a name and a password.
pub record IsUseradd {World : Type 0} (command name password : List ℕ) (s : State World)
    : Type 0 where
  pub word : List ℕ
  pub named : text word ≡ chars "useradd"
  pub alone : IsAlone command word (name ∷ password ∷ []) s

module _ (F : Firmware) (ready : Bool) (fresh : ℕ → List ℕ) where
  -- What the command says.
  abbrev pub reply : Bool → List ℕ
  reply true = chars "user created"
  reply false = chars "usage: useradd <name> <password>"

  text-reply :
      (added : Bool)
      → text (if added then chars "user created" else chars "usage: useradd <name> <password>")
        ≡ reply added
  text-reply true = refl
  text-reply false = refl

  -- A run that ended with 0 and has added the user to the directory, if the directory allows
  -- it, with the firmware's calls and the answer of accounts_add from `w` on.
  pub record IsAdded (name password : List ℕ) (a : Accounts.State) (w : F.World)
      (shown : List (List ℕ)) (r : Run F.World ℕ) : Type 0 where
    pub state : State F.World
    pub ended : r ≡ done 0 state
    pub users : directory state.accounts ≡ Spec.add (text name) (text password) (directory a)
    pub world : state.world ≡ (Accounts.add F ready name password a w).2
    pub told :
        state.written ≡ (13 ∷ 10 ∷ []) ∷ reply (Accounts.add F ready name password a w).0 ∷ shown

  add_user-IsAdded :
      (word name password : List ℕ) (s : State F.World)
      → IsValid s.accounts
      → IsAdded name password s.accounts s.world s.written
          (add_user F ready fresh (word ∷ name ∷ password ∷ []) s)
  unfolding add_user write_line write
  add_user-IsAdded word name password s v =
      let (added, accounts, w) = Accounts.add F ready name password s.accounts s.world in
      record {
        state =
            write_line
              (if added then chars "user created" else chars "usage: useradd <name> <password>")
              (record s { accounts = accounts; world = w });
        ended = refl;
        users = (add_refines F ready name password s.world v).0;
        world = refl;
        told = ap (λ t. (13 ∷ 10 ∷ []) ∷ t ∷ s.written) (text-reply added);
      }

  -- A command line `useradd`, a name and a password, alone and without a pipe, on a valid table and
  -- any fuel above zero: terminal_execute_command ends with 0, writes "user created" where
  -- accounts_add answers 1 and the usage otherwise, with no call of the firmware but those of
  -- accounts_add, and the directory of users is that after the directory's add, which changes
  -- nothing if the addition is not allowed, whatever the firmware answers.
  pub execute_command-IsAdded :
      (fuel : ℕ) (command name password : List ℕ) (s : State F.World)
      → IsValid s.accounts
      → IsUseradd command name password s
      → IsAdded name password s.accounts s.world s.written
          (execute_command F ready fresh (suc fuel) command s)
  unfolding parse perform
  execute_command-IsAdded fuel command name password s v u =
      let known : command_of u.word ≡ Command.useradd =
        command_of-entry u.word (rw u.named refl) 42 (omega arith) (rw u.named refl) in
      rw
        (
          execute_command-perform F ready fresh fuel command u.word (name ∷ password ∷ []) s
              u.alone,
          known,
        )
        (add_user-IsAdded u.word name password (parse command s).1 v)
