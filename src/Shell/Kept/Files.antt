-- ===== src/Shell/Kept/Files.antt =====
-- The file commands: only the world and what is written change, and the lines of a script are
-- strings of CHAR16 values.
use existent_os.Prelude.{
  ℕ, zero, suc, ◌+◌, ◌<◌, Bool, List, [], ◌∷◌, Option, none, some, Bool-cases, inl, inr, ltb, ◌==◌,
  if◌then◌else◌, length, All, All-append,
}
use existent_os.Firmware.{Firmware, is_error, mode_read}
use existent_os.Firmware.OpenFile.{open_file}
use existent_os.Accounts.State as Accounts
use existent_os.Accounts.Valid.{IsChars}
use existent_os.Terminal.{max_line}
use existent_os.Shell.State.{State, write}
use existent_os.Shell.Files.{
  next_line, emit, script_lines, cat_rounds, cat_file, read_script_from, read_script,
}
use existent_os.Shell.Kept.{IsWide, Good, Ends, if-Ends}
use existent_os.Shell.Kept.Pure.{write-Good, write_line-Good, world-Good}

next_line-IsChars : (b : ℕ) (line : List ℕ) → b < 65536 → IsChars line → IsChars (next_line b line)
next_line-IsChars b line hb h = elim (Bool-cases (b == 13)) [
  | inl e ↦ rw e h
  | inr e ↦ elim (Bool-cases (b == 10)) [
    | inl e' ↦ rw (e, e') tt
    | inr e' ↦ elim (Bool-cases (ltb (length line + 1) max_line)) [
      | inl room ↦ rw (e, e', room) (All-append (λ c. c < 65536) line (b ∷ []) h (hb, tt))
      | inr full ↦ rw (e, e', full) h
    ]
  ]
]

pub emit-IsChars :
    (line : List ℕ) (rest : List (List ℕ))
    → IsChars line
    → All IsChars rest
    → All IsChars (emit line rest)
emit-IsChars [] rest h hr = hr
emit-IsChars (c ∷ line) rest h hr = (h, hr)

pub script_lines-IsChars :
    (line bytes : List ℕ) → IsChars line → IsChars bytes → All IsChars (script_lines line bytes)
unfolding script_lines
script_lines-IsChars line [] h hb = emit-IsChars line [] h tt
script_lines-IsChars line (b ∷ bytes) h hb =
    let rest =
      script_lines-IsChars (next_line b line) bytes (next_line-IsChars b line hb.0 h) hb.1 in
    elim (Bool-cases (b == 10)) [
      | inl e ↦ rw e (emit-IsChars line _ h (rw e at (rest)))
      | inr e ↦ rw e (rw e at (rest))
    ]

-- The lines that were read, if the file could be.
abbrev pub AreLines : Option (List (List ℕ)) → Type 0
AreLines none = Unit {0}
AreLines (some lines) = All IsChars lines

module _ (F : Firmware) (ready : Bool) where
  module _ (P : Accounts.State → Type 0) where
    -- A state after a run.
    abbrev pub Keeps : {A : Type 0} → A → State F.World → Type 0
    Keeps a t = Good P t

    show_bytes-Good :
        (bytes : List ℕ) (s : State F.World)
        → Good P s
        → Good P (if length bytes == 0 then s else write bytes s)
    show_bytes-Good bytes s g = elim (Bool-cases (length bytes == 0)) [
      | inl e ↦ rw e g
      | inr e ↦ rw e (write-Good P bytes s g)
    ]

    cat_rounds-Ends :
        (fuel file : ℕ) (s : State F.World)
        → Good P s
        → Ends {A = Bool} Keeps (cat_rounds F ready fuel file s)
    unfolding cat_rounds
    cat_rounds-Ends zero file s g = tt
    cat_rounds-Ends (suc fuel) file s g =
        let bytes = (F.read file 120 s.world).1 in
        let after : State F.World = record s { world = (F.read file 120 s.world).2 } in
        let shown = show_bytes-Good bytes after (world-Good P _ s g) in
        if-Ends Keeps (is_error (F.read file 120 s.world).0) _ _ (world-Good P _ s g) (
          if-Ends Keeps (length bytes == 120) _ _ (cat_rounds-Ends fuel file _ shown)
            (write_line-Good P [] _ (world-Good P _ _ shown)))

    pub cat_file-Ends :
        (fuel : ℕ) (path : List ℕ) (s : State F.World)
        → Good P s
        → Ends {A = Bool} Keeps (cat_file F ready fuel path s)
    unfolding cat_file
    cat_file-Ends fuel path s g =
        let (found, file, w) = open_file F ready path mode_read 0 s.world in
        if-Ends Keeps found _ _ (cat_rounds-Ends fuel file _ (world-Good P w s g))
          (world-Good P w s g)

  module _ {fresh : ℕ → List ℕ} (wide : IsWide F fresh) where
    read_script_from-AreLines :
        (file : ℕ) (w : F.World) → AreLines (read_script_from F ready file w).0
    unfolding read_script_from
    read_script_from-AreLines file w = elim (Bool-cases (is_error (F.read file 4095 w).0)) [
      | inl e ↦ rw e tt
      | inr e ↦ rw e (script_lines-IsChars [] _ tt (wide.file_bytes file 4095 w))
    ]

    pub read_script-AreLines :
        (path : List ℕ) (w : F.World) → AreLines (read_script F ready path w).0
    unfolding read_script
    read_script-AreLines path w = elim (Bool-cases (open_file F ready path mode_read 0 w).0) [
      | inl e ↦ rw e (read_script_from-AreLines _ _)
      | inr e ↦ rw e tt
    ]
