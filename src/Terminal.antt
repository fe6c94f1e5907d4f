-- ===== src/Terminal.antt =====
-- The text functions of the terminal in OSC/boot/efi_main.c: matching, searching, splitting and
-- reading a line.
pub mod Segments
pub mod Chars
pub mod Lengths
pub mod Words
pub mod Matching
pub mod Reading
pub mod Echo
mod Examples
use existent_os.Prelude.{
  ℕ, ◌+◌, ◌-◌, Bool, true, false, not, ◌&&◌, ◌||◌, List, [], ◌∷◌, map, Option, none, some, ◌==◌,
  leb, if◌then◌else◌, get_or, set, drop,
}
use existent_os.CString.{copy_upto}

abbrev pub max_args : ℕ
max_args = 8

abbrev pub max_line : ℕ
max_line = 128

-- What a comparison of two strings says where it stops.
unfoldable pub match_command : List ℕ → List ℕ → Bool
match_command [] [] = true
match_command [] (n ∷ name) = n == 0
match_command (c ∷ command) [] = c == 0 || c == b' '
match_command (c ∷ command) (n ∷ name) =
    if not (c == 0) && (not (n == 0) && c == n)
    then match_command command name
    else n == 0 && (c == 0 || c == b' ')

unfoldable pub starts_with : List ℕ → List ℕ → Bool
starts_with a [] = true
starts_with [] (y ∷ b) = y == 0
starts_with (x ∷ a) (y ∷ b) =
    if not (x == 0) && (not (y == 0) && x == y) then starts_with a b else y == 0

-- `while (*text) { ...; if (*b == 0) return 1; ++text; } return 0;`
unfoldable pub search_from : List ℕ → List ℕ → Bool
search_from [] needle = false
search_from (c ∷ text) needle =
    let rest = search_from text needle in
    if c == 0 then false else if starts_with (c ∷ text) needle then true else rest

unfoldable pub contains : List ℕ → List ℕ → Bool
contains text needle = if get_or needle 0 0 == 0 then true else search_from text needle

-- A space or a tab.
abbrev pub is_blank : ℕ → Bool
is_blank c = c == b' ' || c == 9

-- The rest of the line from the cursor on, and the offsets stored in argv. `inside` is whether the
-- cursor is in a word, `left` the room in argv, and `at` the cursor. The blank that ends a word is
-- overwritten by a terminator.
unfoldable pub split_line : Bool → ℕ → ℕ → List ℕ → List ℕ × List ℕ
split_line inside left at [] = ([], [])
split_line inside left at (c ∷ line) =
    let starts = not inside && not (is_blank c) in
    let rest = split_line (not (is_blank c)) (if starts then left - 1 else left) (at + 1) line in
    if c == 0 || (starts && left == 0)
    then (c ∷ line, [])
    else ((if inside && is_blank c then 0 else c) ∷ rest.0, if starts then at ∷ rest.1 else rest.1)

-- The static line after a call, and argv as offsets into it; `line` is what it held before.
unfoldable pub parse_command : List ℕ → ℕ → List ℕ → List ℕ × List ℕ
parse_command command max_args line =
    split_line false max_args 0 (copy_upto (max_line - 1) line command)

-- The strings that argv points to.
unfoldable pub arguments : List ℕ × List ℕ → List (List ℕ)
arguments (line, offsets) = map (λ k. drop k line) offsets

-- The line being read, its length, and what has been written so far, the latest first.
pub record Input : Type 0 where
  pub line : List ℕ
  pub length : ℕ
  pub written : List (List ℕ)

-- One round of terminal_read_line for a key other than a carriage return; 0 is no character.
unfoldable pub take_key : Bool → ℕ → ℕ → Input → Input
take_key echo max_length key s =
    if key == 0
    then s
    else if key == 8
    then (if s.length == 0 then s else record {
      line = set s.line (s.length - 1) 0;
      length = s.length - 1;
      written = (8 ∷ b' ' ∷ 8 ∷ []) ∷ s.written;
    })
    else if leb max_length (s.length + 1)
    then s
    else record {
      line = set s.line s.length key;
      length = s.length + 1;
      written = if echo then (key ∷ []) ∷ s.written else s.written;
    }

-- The loop on the characters that the calls of ReadKeyStroke leave in `key`, with the input after
-- the carriage return and the keys that are left; `none` while it still waits.
unfoldable pub read_keys : Bool → ℕ → List ℕ → Input → Option (Input × List ℕ)
read_keys echo max_length [] s = none
read_keys echo max_length (key ∷ keys) s =
    let rest = read_keys echo max_length keys (take_key echo max_length key s) in
    if key == 13
    then some
        (record s { line = set s.line s.length 0; written = (13 ∷ 10 ∷ []) ∷ s.written }, keys)
    else rest

unfoldable pub read_line : Bool → ℕ → List ℕ → List ℕ → Option (Input × List ℕ)
read_line echo max_length line keys =
    read_keys echo max_length keys (record { line = line; length = 0; written = [] })
