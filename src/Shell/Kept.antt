-- ===== src/Shell/Kept.antt =====
-- What the terminal keeps: a property of the accounts that login, useradd and passwd keep holds
-- after any command, and strings of CHAR16 values stay such strings.
pub mod Pure
pub mod Actions
pub mod Files
pub mod Commands
pub mod Sessions
pub mod Trusted
use existent_os.Prelude.{ℕ, Bool, true, false, List, if◌then◌else◌}
use existent_os.Firmware.{Firmware}
use existent_os.Accounts.State as Accounts
use existent_os.Accounts.Valid.{IsChars}
use existent_os.Shell.State.{State}
use existent_os.Shell.Run.{Run, done, waiting, exhausted, Action, and_then}

-- A property that the calls of accounts.c keep, for whatever the firmware answers.
pub record IsKept (F : Firmware) (ready : Bool) (P : Accounts.State → Type 0) : Type 0 where
  pub login :
      (name password : List ℕ) (a : Accounts.State) → P a → P (Accounts.login name password a).1
  pub add :
      (name password : List ℕ) (a : Accounts.State) (w : F.World)
      → IsChars name
      → IsChars password
      → P a
      → P (Accounts.add F ready name password a w).1
  pub change :
      (old_password new_password : List ℕ) (a : Accounts.State) (w : F.World)
      → IsChars new_password
      → P a
      → P (Accounts.change_password F ready old_password new_password a w).1

-- The surroundings of the terminal: what is read from a file and what lies on the stack are cells of
-- 16 bits at most.
pub record IsWide (F : Firmware) (fresh : ℕ → List ℕ) : Type 0 where
  pub file_bytes : (file size : ℕ) (w : F.World) → IsChars (F.read file size w).1
  pub stack : (n : ℕ) → IsChars (fresh n)

-- The property, and CHAR16 values in the keys to come and in the static line.
pub record Good {World : Type 0} (P : Accounts.State → Type 0) (s : State World) : Type 0 where
  pub accounts : P s.accounts
  pub keys : IsChars s.keys
  pub line : IsChars s.line

-- What holds of the result and the state where a run is done.
abbrev pub Ends : {World A : Type 0} → (A → State World → Type 0) → Run World A → Type 0
Ends P (done a s) = P a s
Ends P waiting = Unit {0}
Ends P exhausted = Unit {0}

pub and_then-Ends :
    {World A B : Type 0} (P : A → State World → Type 0) (Q : B → State World → Type 0)
    (r : Run World A) (f : A → Action World B)
    → Ends P r
    → ((a : A) (s : State World) → P a s → Ends Q (f a s))
    → Ends Q (and_then r f)
and_then-Ends P Q (done a s) f h k = k a s h
and_then-Ends P Q waiting f h k = tt
and_then-Ends P Q exhausted f h k = tt

pub if-Ends :
    {World A : Type 0} (P : A → State World → Type 0) (c : Bool) (r t : Run World A)
    → Ends P r
    → Ends P t
    → Ends P (if c then r else t)
if-Ends P true r t h k = h
if-Ends P false r t h k = k

pub map-Ends :
    {World A : Type 0} (P Q : A → State World → Type 0) (r : Run World A)
    → ((a : A) (s : State World) → P a s → Q a s)
    → Ends P r
    → Ends Q r
map-Ends P Q (done a s) k h = k a s h
map-Ends P Q waiting k h = tt
map-Ends P Q exhausted k h = tt
