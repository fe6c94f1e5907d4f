-- ===== src/Terminal/Words.antt =====
-- Splitting a command in place gives its words.
use existent_os.Prelude.{
  ℕ, zero, suc, ◌+◌, ◌≡◌, refl, sym, ◌∙◌, ap, ap₂, Bool, true, false, List, [], ◌∷◌, ◌++◌, map,
  arith, Bool-cases, inl, inr, ◌==◌, if◌then◌else◌, length, take, drop, length-append, drop-append,
}
use mathlib.Core.List.{append_assoc}
use existent_os.CString.{text, copy_upto}
use existent_os.CString.Laws.{text-copy_upto}
use existent_os.Terminal.{is_blank, split_line, parse_command, arguments, max_line}

-- A first word, which may be empty, before the others.
abbrev pub push : List ℕ → List (List ℕ) → List (List ℕ)
push [] others = others
push (c ∷ word) others = (c ∷ word) ∷ others

-- The characters before the first blank, and the words after it.
abbrev pub split : List ℕ → List ℕ × List (List ℕ)
split [] = ([], [])
split (c ∷ s) =
    let rest = split s in if is_blank c then ([], push rest.0 rest.1) else (c ∷ rest.0, rest.1)

-- The words of a text, which blanks separate.
abbrev pub words : List ℕ → List (List ℕ)
words s = push (split s).0 (split s).1

-- The strings at offsets into a line that begins with `before`.
abbrev strings_at : List ℕ → List ℕ → List ℕ → List (List ℕ)
strings_at before line offsets = map (λ k. text (drop k (before ++ line))) offsets

-- What the cursor has ahead of it: in a word its end and the other words, else words only.
record Ahead (inside : Bool) (left at : ℕ) (before line : List ℕ) : Type 0 where
  word : inside ≡ true → text (split_line inside left at line).0 ≡ (split (text line)).0
  others :
      strings_at before (split_line inside left at line).0 (split_line inside left at line).1
      ≡ take left (if inside then (split (text line)).1 else words (text line))

take_none : (n : ℕ) → take {A = List ℕ} n [] ≡ []
take_none zero = refl
take_none (suc n) = refl

strings_at-suc :
    (before line : List ℕ) (c : ℕ) (offsets : List ℕ)
    → strings_at (before ++ (c ∷ [])) line offsets ≡ strings_at before (c ∷ line) offsets
strings_at-suc before line c offsets =
    ap (λ t. map (λ k. text (drop k t)) offsets) (append_assoc before (c ∷ []) line)

-- The string at the cursor.
string_here :
    (before line : List ℕ) (at : ℕ)
    → length before ≡ at
    → text (drop at (before ++ line)) ≡ text line
string_here before line at h = ap text (drop-append at before line h)

-- One step of each kind.
module _ (left at c : ℕ) (line : List ℕ) where
  text_end : c == 0 ≡ true → text (c ∷ line) ≡ []
  text_end z = rw z refl

  text_more : c == 0 ≡ false → text (c ∷ line) ≡ c ∷ text line
  text_more z = rw z refl

  at_end : (inside : Bool) → c == 0 ≡ true → split_line inside left at (c ∷ line) ≡ (c ∷ line, [])
  unfolding split_line
  at_end inside z = rw z refl

  word_ends :
      c == 0 ≡ false
      → is_blank c ≡ true
      → let r = split_line false left (at + 1) line in
        split_line true left at (c ∷ line) ≡ (0 ∷ r.0, r.1)
  unfolding split_line
  word_ends z b = rw (z, b) refl

  word_goes_on :
      c == 0 ≡ false
      → is_blank c ≡ false
      → let r = split_line true left (at + 1) line in
        split_line true left at (c ∷ line) ≡ (c ∷ r.0, r.1)
  unfolding split_line
  word_goes_on z b = rw (z, b) refl

  blank_again :
      c == 0 ≡ false
      → is_blank c ≡ true
      → let r = split_line false left (at + 1) line in
        split_line false left at (c ∷ line) ≡ (c ∷ r.0, r.1)
  unfolding split_line
  blank_again z b = rw (z, b) refl

  no_room : c == 0 ≡ false → is_blank c ≡ false → split_line false 0 at (c ∷ line) ≡ (c ∷ line, [])
  unfolding split_line
  no_room z b = rw (z, b) refl

  word_starts :
      c == 0 ≡ false
      → is_blank c ≡ false
      → let r = split_line true left (at + 1) line in
        split_line false (suc left) at (c ∷ line) ≡ (c ∷ r.0, at ∷ r.1)
  unfolding split_line
  word_starts z b = ground (arith, z, b)

empty-Ahead : (inside : Bool) (left at : ℕ) (before : List ℕ) → Ahead inside left at before []
unfolding split_line
empty-Ahead true left at before = record { word = λ _. refl; others = sym (take_none left) }
empty-Ahead false left at before = record { word = λ e. absurd (cc); others = sym (take_none left) }

length-before :
    (before : List ℕ) (at c : ℕ) → length before ≡ at → length (before ++ (c ∷ [])) ≡ at + 1
length-before before at c h = omega (arith, h, length-append before (c ∷ []))

-- A word begins if argv has room.
starting :
    (at : ℕ) (before : List ℕ) (c : ℕ) (line : List ℕ)
    → c == 0 ≡ false
    → is_blank c ≡ false
    → length before ≡ at
    → ((room : ℕ) → Ahead true room (at + 1) (before ++ (c ∷ [])) line)
    → (left : ℕ)
    → strings_at before
        (split_line false left at (c ∷ line)).0
        (split_line false left at (c ∷ line)).1
      ≡ take left ((c ∷ (split (text line)).0) ∷ (split (text line)).1)
starting at before c line z b h rest zero = rw (no_room zero at c line z b) refl
starting at before c line z b h rest (suc left) = rw (word_starts left at c line z b) (
    ap₂ ◌∷◌
      (string_here before _ at h
        ∙ text_more left at c (split_line true left (at + 1) line).0 z
        ∙ ap (λ t. c ∷ t) ((rest left).word refl))
      (sym (strings_at-suc before _ c _) ∙ (rest left).others))

split_line-Ahead :
    (inside : Bool) (left at : ℕ) (before line : List ℕ)
    → length before ≡ at
    → Ahead inside left at before line
split_line-Ahead inside left at before [] h = empty-Ahead inside left at before
split_line-Ahead true left at before (c ∷ line) h = elim (Bool-cases (c == 0)) [
  | inl z ↦
      let step = at_end left at c line true z in
      let here = text_end left at c line z in
      record { word = λ _. rw (step, here) refl; others = rw (step, here) (sym (take_none left)) }
  | inr z ↦
      let here = text_more left at c line z in
      elim (Bool-cases (is_blank c)) [
        | inl b ↦
            let step = word_ends left at c line z b in
            let rest =
              split_line-Ahead false left (at + 1) (before ++ (0 ∷ [])) line
                (length-before before at 0 h) in
            record {
              word = λ _. rw (step, here, b) refl;
              others = rw (step, here, b) (sym (strings_at-suc before _ 0 _) ∙ rest.others);
            }
        | inr b ↦
            let step = word_goes_on left at c line z b in
            let rest =
              split_line-Ahead true left (at + 1) (before ++ (c ∷ [])) line
                (length-before before at c h) in
            record {
              word = λ _.
                  rw (step, here, b)
                    (text_more left at c (split_line true left (at + 1) line).0 z
                      ∙ ap (λ t. c ∷ t) (rest.word refl));
              others = rw (step, here, b) (sym (strings_at-suc before _ c _) ∙ rest.others);
            }
      ]
]
split_line-Ahead false left at before (c ∷ line) h = elim (Bool-cases (c == 0)) [
  | inl z ↦
      let step = at_end left at c line false z in
      let here = text_end left at c line z in
      record { word = λ e. absurd (cc); others = rw (step, here) (sym (take_none left)) }
  | inr z ↦
      let here = text_more left at c line z in
      elim (Bool-cases (is_blank c)) [
        | inl b ↦
            let step = blank_again left at c line z b in
            let rest =
              split_line-Ahead false left (at + 1) (before ++ (c ∷ [])) line
                (length-before before at c h) in
            record {
              word = λ e. absurd (cc);
              others = rw (step, here, b) (sym (strings_at-suc before _ c _) ∙ rest.others);
            }
        | inr b ↦ record {
          word = λ e. absurd (cc);
          others =
              rw (here, b)
                (starting at before c line z b h
                  (λ room.
                    split_line-Ahead true room (at + 1) (before ++ (c ∷ [])) line
                      (length-before before at c h))
                  left);
        }
      ]
]

-- The static line has 128 cells. After parse_command the strings of argv are the first words of the
-- command's first 127 characters, as many as argv has room for.
pub parse_command-words :
    (command line : List ℕ) (max_args : ℕ)
    → length line ≡ max_line
    → map text (arguments (parse_command command max_args line))
      ≡ take max_args (words (take 127 (text command)))
unfolding parse_command arguments
parse_command-words command line max_args h =
    strings_of _ _
    ∙ (split_line-Ahead false max_args 0 [] copied refl).others
    ∙ ap (λ t. take max_args (words t)) (text-copy_upto 127 line command (omega arith))
  where
    copied : List ℕ
    copied = copy_upto 127 line command

    strings_of :
        (offsets : List ℕ) (l : List ℕ)
        → map text (map (λ k. drop k l) offsets) ≡ strings_at [] l offsets
    strings_of [] l = refl
    strings_of (k ∷ offsets) l = ap (λ t. text (drop k l) ∷ t) (strings_of offsets l)
