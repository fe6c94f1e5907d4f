-- ===== src/Shell/Writing.antt =====
-- The write command on a whole command line, and what the file holds after it.
use existent_os.Prelude.{ℕ, ◌≡◌, Bool, true, List, ◌∷◌, length}
use existent_os.CString.{text, chars}
use existent_os.Firmware.{Firmware}
use existent_os.Firmware.OpenFile.{open_file}
use existent_os.Shell.State.{State}
use existent_os.Shell.Run.{Run, done}
use existent_os.Shell.Alone.{IsAlone}
use existent_os.Shell.Commands.{write as write_command}

-- The command line as it is split: no `&` and no `|`, and the word `write`, a path and some words.
pub record IsWrite {World : Type 0} (command path : List ℕ) (words : List (List ℕ))
    (s : State World) : Type 0 where
  pub word : List ℕ
  pub named : text word ≡ chars "write"
  pub alone : IsAlone command word (path ∷ words) s

module _ (F : Firmware) (ready : Bool) (fresh : ℕ → List ℕ) where
  -- A run that ended with 0 and wrote nothing, after which the file of the path, opened for reading,
  -- gives these bytes.
  pub record IsStored (path bytes : List ℕ) (shown : List (List ℕ)) (r : Run F.World ℕ)
      : Type 0 where
    pub state : State F.World
    pub ended : r ≡ done 0 state
    pub silent : state.written ≡ shown
    pub file : ℕ
    pub before : F.World
    pub after : F.World
    pub opened : open_file F ready path 1 0 state.world ≡ (true, file, before)
    pub is_read : F.read file (length bytes) before ≡ (0, bytes, after)

  -- What the three calls of the firmware answer when they succeed: the file is opened for writing and
  -- created if it is missing, the position is set to the start, and all bytes are written.
  pub record AreWritten (path bytes : List ℕ) (w : F.World) : Type 0 where
    pub file : ℕ
    pub w₁ : F.World
    pub w₂ : F.World
    pub w₃ : F.World
    pub opened : open_file F ready path 0x8000000000000003 0x20 w ≡ (true, file, w₁)
    pub placed : F.set_position file 0 w₁ ≡ (0, w₂)
    pub written : F.write file bytes w₂ ≡ (0, length bytes, w₃)
