-- ===== src/Shell/Passwords.antt =====
-- The passwd command, with the two passwords typed.
use existent_os.Prelude.{
  ℕ, suc, ◌≤◌, ◌<◌, ◌≡◌, refl, ◌∙◌, Bool, true, false, List, [], ◌∷◌, ◌++◌, arith, length, All,
  if◌then◌else◌,
}
use existent_os.CString.{text, chars}
use existent_os.Firmware.{Firmware}
use existent_os.Accounts.State as Accounts
use existent_os.Accounts.Valid.{directory, IsValid}
use existent_os.Accounts.Directory as Spec
use existent_os.Accounts.Refine.{change_password_refines}
use existent_os.Shell.State.{State, write, write_line}
use existent_os.Shell.Run.{Run, done}
use existent_os.Shell.Alone.{IsAlone, execute_command-perform}
use existent_os.Shell.Commands.{Command, command_of}
use existent_os.Shell.Dispatch.{command_of-entry}
use existent_os.Shell.Programs.{read_secret}
use existent_os.Shell.Replies.{parse}
use existent_os.Shell.Execute.{store_password, change_password, perform, execute_command}
use existent_os.Shell.Welcome.{IsLetter, read-Reads, read_line-Reads}

module _ (F : Firmware) (ready : Bool) (fresh : ℕ → List ℕ) where
  -- A run that ended with 0, has left the keys behind the passwords with the echo on again, and has
  -- changed the password in the directory, if the directory allows it.
  pub record IsChanged (old new rest : List ℕ) (a : Accounts.State) (r : Run F.World ℕ)
      : Type 0 where
    pub state : State F.World
    pub ended : r ≡ done 0 state
    pub keys : state.keys ≡ rest
    pub echo : state.echo_enabled ≡ true
    pub users : directory state.accounts ≡ Spec.change old new (directory a)

  store_password-IsChanged :
      (old new rest old_cells new_cells : List ℕ) (s : State F.World)
      → IsValid s.accounts
      → text old_cells ≡ old
      → text new_cells ≡ new
      → s.keys ≡ rest
      → s.echo_enabled ≡ true
      → IsChanged old new rest s.accounts (store_password F ready fresh old_cells new_cells s)
  unfolding store_password write_line write
  store_password-IsChanged old new rest old_cells new_cells s v o n keys echo =
      let (changed, accounts, w) =
        Accounts.change_password F ready old_cells new_cells s.accounts s.world in
      record {
        state =
            write_line (if changed then chars "password updated" else chars "password not changed")
              (record s { accounts = accounts; world = w });
        ended = refl;
        keys = keys;
        echo = echo;
        users =
            (change_password_refines F ready old_cells new_cells s.world v).0
            ∙ (λ i. Spec.change (o i) (n i) (directory s.accounts));
      }

  module _ (stack : 32 ≤ length (fresh 32)) where
    change_password-IsChanged :
        (old new rest : List ℕ) (s : State F.World)
        → IsValid s.accounts
        → All IsLetter old
        → All IsLetter new
        → length old < 32
        → length new < 32
        → s.keys ≡ old ++ (13 ∷ (new ++ (13 ∷ rest)))
        → IsChanged old new rest s.accounts (change_password F ready fresh s)
    unfolding change_password read_secret write
    change_password-IsChanged old new rest s v lo ln so sn e =
        let r = read-Reads false 32 (fresh 32) old (new ++ (13 ∷ rest)) lo so stack in
        let r' = read-Reads false 32 (fresh 32) new rest ln sn stack in
        rw
          (
            read_line-Reads 32 (fresh 32) old (new ++ (13 ∷ rest))
                (record s {
                  written = text (chars "current password: ") ∷ s.written;
                  echo_enabled = false;
                })
                e r,
            read_line-Reads 32 (fresh 32) new rest
                (record s {
                  keys = new ++ (13 ∷ rest);
                  written =
                      text (chars "new password: ")
                      ∷ (r.input.written ++ (text (chars "current password: ") ∷ s.written));
                  echo_enabled = false;
                })
                refl r',
          )
          (store_password-IsChanged old new rest r.input.line r'.input.line _ v r.held r'.held refl
            refl)

    -- A command line `passwd`, alone and without a pipe, on a valid table and any fuel above zero, with
    -- an array on the stack of at least 32 cells, when the keys are two words of less than 32 characters that
    -- can be typed, each with a carriage return behind it: terminal_execute_command ends with 0, with
    -- the echo on and the keys behind the words left, and the directory of users is that after the
    -- directory's change from the first to the second, which changes nothing if the change is not
    -- allowed, whatever the firmware answers.
    pub execute_command-IsChanged :
        (fuel : ℕ) (command word old new rest : List ℕ) (s : State F.World)
        → IsAlone command word [] s
        → text word ≡ chars "passwd"
        → IsValid s.accounts
        → All IsLetter old
        → All IsLetter new
        → length old < 32
        → length new < 32
        → s.keys ≡ old ++ (13 ∷ (new ++ (13 ∷ rest)))
        → IsChanged old new rest s.accounts (execute_command F ready fresh (suc fuel) command s)
    unfolding parse perform
    execute_command-IsChanged fuel command word old new rest s alone named v lo ln so sn e =
        let known : command_of word ≡ Command.passwd =
          command_of-entry word (rw named refl) 43 (omega arith) (rw named refl) in
        rw (execute_command-perform F ready fresh fuel command word [] s alone, known)
          (change_password-IsChanged old new rest (parse command s).1 v lo ln so sn e)
