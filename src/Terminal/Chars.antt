-- ===== src/Terminal/Chars.antt =====
-- The text functions of the terminal keep CHAR16 strings CHAR16 strings.
use existent_os.Prelude.{
  ℕ, zero, suc, ◌+◌, ◌-◌, ◌<◌, Bool, false, List, [], ◌∷◌, map, Option, none, some, arith,
  Bool-cases, inl, inr, ltb, leb, ◌==◌, ◌||◌, ◌&&◌, not, if◌then◌else◌, set, drop, All, All-set,
  get_or, All-get_or,
}
use existent_os.CString.{text, copy_upto}
use existent_os.CString.Laws.{All-copy_upto}
use existent_os.Accounts.Valid.{IsChars}
use existent_os.Terminal.{
  is_blank, max_line, split_line, parse_command, arguments, Input, take_key, read_keys, read_line,
}
use existent_os.Terminal.Segments.{
  skip_word, skip_spaces, command_args, trim_start, push_back, trim_end, copy_range, copy_segment,
  cut, put_first,
}

All-drop : (n : ℕ) (s : List ℕ) → IsChars s → IsChars (drop n s)
All-drop zero s h = h
All-drop (suc n) [] h = tt
All-drop (suc n) (c ∷ s) h = All-drop n s h.1

pub text-IsChars : (s : List ℕ) → IsChars s → IsChars (text s)
text-IsChars [] h = tt
text-IsChars (c ∷ s) h = elim (Bool-cases (c == 0)) [
  | inl z ↦ rw z tt
  | inr z ↦ rw z (h.0, text-IsChars s h.1)
]

skip_word-IsChars : (s : List ℕ) → IsChars s → IsChars (skip_word s)
unfolding skip_word
skip_word-IsChars [] h = tt
skip_word-IsChars (c ∷ s) h = elim (Bool-cases (c == 0 || c == b' ')) [
  | inl e ↦ rw e h
  | inr e ↦ rw e (skip_word-IsChars s h.1)
]

skip_spaces-IsChars : (s : List ℕ) → IsChars s → IsChars (skip_spaces s)
unfolding skip_spaces
skip_spaces-IsChars [] h = tt
skip_spaces-IsChars (c ∷ s) h = elim (Bool-cases (c == b' ')) [
  | inl e ↦ rw e (skip_spaces-IsChars s h.1)
  | inr e ↦ rw e h
]

pub command_args-IsChars : (s : List ℕ) → IsChars s → IsChars (command_args s)
unfolding command_args
command_args-IsChars s h = skip_spaces-IsChars (skip_word s) (skip_word-IsChars s h)

trim_start-IsChars : (s : List ℕ) → IsChars s → IsChars (trim_start s)
unfolding trim_start
trim_start-IsChars [] h = tt
trim_start-IsChars (c ∷ s) h = elim (Bool-cases (is_blank c)) [
  | inl e ↦ rw e (trim_start-IsChars s h.1)
  | inr e ↦ rw e h
]

push_back-IsChars : (c : ℕ) (s : List ℕ) → c < 65536 → IsChars s → IsChars (push_back c s)
push_back-IsChars c [] h hs = elim (Bool-cases (is_blank c)) [
  | inl e ↦ rw e tt
  | inr e ↦ rw e (h, tt)
]
push_back-IsChars c (d ∷ s) h hs = (h, hs)

trim_end-IsChars : (s : List ℕ) → IsChars s → IsChars (trim_end s)
unfolding trim_end
trim_end-IsChars [] h = tt
trim_end-IsChars (c ∷ s) h = push_back-IsChars c (trim_end s) h.0 (trim_end-IsChars s h.1)

copy_range-IsChars :
    (at : ℕ) (destination cells : List ℕ)
    → IsChars destination
    → IsChars cells
    → IsChars (copy_range at destination cells)
unfolding copy_range
copy_range-IsChars at destination [] hd hc =
    All-set (λ c. c < 65536) destination at 0 hd (omega arith)
copy_range-IsChars at destination (c ∷ cells) hd hc = elim (Bool-cases (ltb (at + 1) max_line)) [
  | inl e ↦ rw e (
      copy_range-IsChars (at + 1) (set destination at c) cells
        (All-set (λ c. c < 65536) destination at c hd hc.0) hc.1)
  | inr e ↦ rw e (All-set (λ c. c < 65536) destination at 0 hd (omega arith))
]

pub copy_segment-IsChars :
    (destination cells : List ℕ)
    → IsChars destination
    → IsChars cells
    → IsChars (copy_segment destination cells)
unfolding copy_segment
copy_segment-IsChars destination cells hd hc =
    copy_range-IsChars 0 destination (trim_end (trim_start cells)) hd
      (trim_end-IsChars (trim_start cells) (trim_start-IsChars cells hc))

-- Both sides of a separator, if there is one.
abbrev pub AreParts : Option (List ℕ × List ℕ) → Type 0
AreParts none = Unit {0}
AreParts (some (before, after)) = IsChars before × IsChars after

put_first-AreParts :
    (c : ℕ) (r : Option (List ℕ × List ℕ)) → c < 65536 → AreParts r → AreParts (put_first c r)
put_first-AreParts c none h hr = tt
put_first-AreParts c (some (before, after)) h hr = ((h, hr.0), hr.1)

pub cut-AreParts : (mark : ℕ) (s : List ℕ) → IsChars s → AreParts (cut mark s)
unfolding cut
cut-AreParts mark [] h = tt
cut-AreParts mark (c ∷ s) h = elim (Bool-cases (c == 0)) [
  | inl z ↦ rw z tt
  | inr z ↦ elim (Bool-cases (c == mark)) [
    | inl e ↦ rw (z, e) (tt, h.1)
    | inr e ↦ rw (z, e) (put_first-AreParts c (cut mark s) h.0 (cut-AreParts mark s h.1))
  ]
]

split_line-IsChars :
    (inside : Bool) (left at : ℕ) (line : List ℕ)
    → IsChars line
    → IsChars (split_line inside left at line).0
unfolding split_line
split_line-IsChars inside left at [] h = tt
split_line-IsChars inside left at (c ∷ line) h =
    let rest =
      split_line-IsChars (not (is_blank c))
        (if not inside && not (is_blank c) then left - 1 else left) (at + 1) line h.1 in
    elim (Bool-cases (c == 0 || ((not inside && not (is_blank c)) && left == 0))) [
      | inl e ↦ rw e h
      | inr e ↦ rw e (cell, rest)
    ]
  where
    cell : (if inside && is_blank c then 0 else c) < 65536
    cell = elim (Bool-cases (inside && is_blank c)) [
      | inl e ↦ rw e (omega arith)
      | inr e ↦ rw e (h.0)
    ]

pub parse_command-IsChars :
    (command line : List ℕ) (max_args : ℕ)
    → IsChars command
    → IsChars line
    → IsChars (parse_command command max_args line).0
unfolding parse_command
parse_command-IsChars command line max_args hc hl =
    split_line-IsChars false max_args 0 (copy_upto 127 line command)
      (All-copy_upto (λ c. c < 65536) 127 line command (omega arith) hl hc)

strings-IsChars :
    (line offsets : List ℕ) → IsChars line → All IsChars (map (λ k. drop k line) offsets)
strings-IsChars line [] h = tt
strings-IsChars line (k ∷ offsets) h = (All-drop k line h, strings-IsChars line offsets h)

pub arguments-IsChars : (r : List ℕ × List ℕ) → IsChars r.0 → All IsChars (arguments r)
unfolding arguments
arguments-IsChars (line, offsets) h = strings-IsChars line offsets h

pub argument-IsChars :
    (args : List (List ℕ)) (i : ℕ) → All IsChars args → IsChars (get_or args i [])
argument-IsChars args i h = All-get_or IsChars args i [] h tt

pub drop-IsChars : (n : ℕ) (s : List ℕ) → IsChars s → IsChars (drop n s)
drop-IsChars n s h = All-drop n s h

take_key-IsChars :
    (echo : Bool) (room key : ℕ) (s : Input)
    → key < 65536
    → IsChars s.line
    → IsChars (take_key echo room key s).line
unfolding take_key
take_key-IsChars echo room key s hk h = elim (Bool-cases (key == 0)) [
  | inl z ↦ rw z h
  | inr z ↦ elim (Bool-cases (key == 8)) [
    | inl back ↦ elim (Bool-cases (s.length == 0)) [
      | inl e ↦ rw (z, back, e) h
      | inr e ↦ rw (z, back, e) (All-set (λ c. c < 65536) s.line (s.length - 1) 0 h (omega arith))
    ]
    | inr char ↦ elim (Bool-cases (leb room (s.length + 1))) [
      | inl full ↦ rw (z, char, full) h
      | inr free ↦ rw (z, char, free) (All-set (λ c. c < 65536) s.line s.length key h hk)
    ]
  ]
]

-- A line that was read and the keys that are left, if the line was ended.
abbrev pub AreTyped : Option (Input × List ℕ) → Type 0
AreTyped none = Unit {0}
AreTyped (some (s, keys)) = IsChars s.line × IsChars keys

read_keys-AreTyped :
    (echo : Bool) (room : ℕ) (keys : List ℕ) (s : Input)
    → IsChars keys
    → IsChars s.line
    → AreTyped (read_keys echo room keys s)
unfolding read_keys
read_keys-AreTyped echo room [] s hk h = tt
read_keys-AreTyped echo room (key ∷ keys) s hk h = elim (Bool-cases (key == 13)) [
  | inl e ↦ rw e (All-set (λ c. c < 65536) s.line s.length 0 h (omega arith), hk.1)
  | inr e ↦ rw e (
      read_keys-AreTyped echo room keys (take_key echo room key s) hk.1
        (take_key-IsChars echo room key s hk.0 h))
]

pub read_line-AreTyped :
    (echo : Bool) (room : ℕ) (line keys : List ℕ)
    → IsChars line
    → IsChars keys
    → AreTyped (read_line echo room line keys)
unfolding read_line
read_line-AreTyped echo room line keys hl hk = read_keys-AreTyped echo room keys _ hk hl
