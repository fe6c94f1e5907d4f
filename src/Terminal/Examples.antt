-- ===== src/Terminal/Examples.antt =====
-- The text functions of the terminal on concrete inputs.
use existent_os.Prelude.{
  ℕ, ◌<◌, ◌≡◌, ◌↔◌, refl, true, false, List, [], ◌∷◌, ◌++◌, map, replicate, take, drop, length, All,
  some, arith,
}
use existent_os.CString.{text, copy_from, copy_upto}
use existent_os.Terminal.{
  match_command, starts_with, search_from, contains, split_line, parse_command, arguments, Input,
  take_key, read_keys, read_line,
}
use existent_os.Terminal.Words.{words, parse_command-words}
use existent_os.Terminal.Matching.{contains_iff}
use existent_os.Terminal.Reading.{seen, expected, typed_line, read_line-typed_line}
use existent_os.Terminal.Echo.{IsSilent, read_line_within, read_line-IsSilent}

-- " cd  B:"
change_drive : List ℕ
change_drive = b' ' ∷ b'c' ∷ b'd' ∷ b' ' ∷ b' ' ∷ b'B' ∷ b':' ∷ 0 ∷ []

parsed :
    map text (arguments (parse_command change_drive 8 (replicate 128 7)))
    ≡ (b'c' ∷ b'd' ∷ []) ∷ (b'B' ∷ b':' ∷ []) ∷ []
unfolding change_drive arguments parse_command split_line copy_upto copy_from
parsed = refl

parse_command-words_example :
    map text (arguments (parse_command change_drive 8 (replicate 128 7)))
    ≡ take 8 (words (take 127 (text change_drive)))
parse_command-words_example = parse_command-words change_drive (replicate 128 7) 8 refl

found : contains change_drive (b'B' ∷ b':' ∷ 0 ∷ []) ≡ true
unfolding change_drive contains search_from starts_with
found = refl

contains_iff_example :
    (contains change_drive (b'B' ∷ b':' ∷ 0 ∷ []) ≡ true)
    ↔ ((pre post : List ℕ) × (text change_drive ≡ pre ++ (b'B' ∷ b':' ∷ [] ++ post)))
contains_iff_example = contains_iff change_drive (b'B' ∷ b':' ∷ 0 ∷ [])

-- "ls x" matches "ls", and "lsx" does not.
matching : match_command (b'l' ∷ b's' ∷ b' ' ∷ b'x' ∷ []) (b'l' ∷ b's' ∷ 0 ∷ []) ≡ true
unfolding match_command
matching = refl

-- "ac", a correction, "b", a pause, and the carriage return, before the key of the next line.
typing : List ℕ
typing = b'a' ∷ b'c' ∷ 8 ∷ b'b' ∷ 0 ∷ 13 ∷ b'x' ∷ []

-- The array after "ab" was read into one of four cells.
after_typing : Input
after_typing = record {
  line = b'a' ∷ b'b' ∷ 0 ∷ 7 ∷ [];
  length = 2;
  written = (13 ∷ 10 ∷ []) ∷ (8 ∷ b' ' ∷ 8 ∷ []) ∷ [];
}

typing_read : read_line false 4 (7 ∷ 7 ∷ 7 ∷ 7 ∷ []) typing ≡ some (after_typing, b'x' ∷ [])
unfolding typing after_typing read_line read_keys take_key
typing_read = refl

read_line-typed_line_example :
    seen (read_line true 4 (7 ∷ 7 ∷ 7 ∷ 7 ∷ []) typing) ≡ expected (typed_line 4 typing [])
read_line-typed_line_example =
    read_line-typed_line true 4 (7 ∷ 7 ∷ 7 ∷ 7 ∷ []) typing (omega arith) (omega arith)

read_line_within_example :
    (after_typing.length < 4) × (length after_typing.line ≡ 4) × (drop 4 after_typing.line ≡ [])
read_line_within_example =
    read_line_within false 4 (7 ∷ 7 ∷ 7 ∷ 7 ∷ []) typing after_typing (b'x' ∷ []) (omega arith)
      typing_read

read_line-IsSilent_example : All IsSilent after_typing.written
read_line-IsSilent_example =
    read_line-IsSilent 4 (7 ∷ 7 ∷ 7 ∷ 7 ∷ []) typing after_typing (b'x' ∷ []) typing_read
