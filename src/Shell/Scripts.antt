-- ===== src/Shell/Scripts.antt =====
-- What the write command puts into a file, and what the source command makes of it.
use existent_os.Prelude.{
  append_nil, append_assoc, ℕ, ◌+◌, ◌%◌, ◌<◌, ◌≤◌, ◌≡◌, ◌≢◌, refl, sym, ◌∙◌, ap, true, false, List,
  [], ◌∷◌, ◌++◌, arith, ltb, ◌==◌, length, length-append, All, Bool-cases, inl, inr,
}
use existent_os.CString.{text}
use existent_os.Terminal.{max_line}
use existent_os.Shell.Files.{put_chars, put_args, file_bytes, emit, script_lines}

-- The words after a first one, each behind a space.
abbrev pub tail : List (List ℕ) → List ℕ
tail [] = []
tail (word ∷ words) = b' ' ∷ (text word ++ tail words)

-- The words with a space between them.
abbrev pub sentence : List (List ℕ) → List ℕ
sentence [] = []
sentence (word ∷ words) = text word ++ tail words

-- A character that is a byte and does not end a line.
abbrev pub IsPlain : ℕ → Type 0
IsPlain c = (c < 256) × (c ≢ 10) × (c ≢ 13)

All-left : (xs ys : List ℕ) → All IsPlain (xs ++ ys) → All IsPlain xs
All-left [] ys h = tt
All-left (x ∷ xs) ys h = (h.0, All-left xs ys h.1)

All-right : (xs ys : List ℕ) → All IsPlain (xs ++ ys) → All IsPlain ys
All-right [] ys h = h
All-right (x ∷ xs) ys h = All-right xs ys h.1

put_chars-text :
    (arg bytes : List ℕ)
    → length bytes + length (text arg) ≤ 126
    → All IsPlain (text arg)
    → put_chars arg bytes ≡ bytes ++ text arg
unfolding put_chars
put_chars-text [] bytes h p = sym (append_nil bytes)
put_chars-text (c ∷ arg) bytes h p = elim (Bool-cases (c == 0)) [
  | inl e ↦ rw e (sym (append_nil bytes))
  | inr e ↦
      let h' = rw e at (h) in
      let p' = rw e at (p) in
      let room : ltb (length bytes + 2) max_line ≡ true = ground (arith, h') in
      let byte : c % 256 ≡ c = omega (arith, p'.0.0) in
      rw (e, room, byte)
        (put_chars-text arg (bytes ++ (c ∷ [])) (omega (arith, h', length-append bytes (c ∷ [])))
            p'.1
          ∙ append_assoc bytes (c ∷ []) (text arg))
]

put_args-tail :
    (args : List (List ℕ)) (bytes : List ℕ)
    → length bytes + length (tail args) ≤ 126
    → All IsPlain (tail args)
    → put_args false args bytes ≡ bytes ++ tail args
unfolding put_args
put_args-tail [] bytes h p = sym (append_nil bytes)
put_args-tail (arg ∷ args) bytes h p =
    let split = length-append (text arg) (tail args) in
    let grown = length-append bytes (b' ' ∷ []) in
    let longer = length-append (bytes ++ (b' ' ∷ [])) (text arg) in
    let room : ltb (length bytes + 2) max_line ≡ true = ground (arith, h) in
    let spaced =
      put_chars-text arg (bytes ++ (b' ' ∷ [])) (omega (arith, h, split, grown))
        (All-left (text arg) (tail args) p.1) in
    rw (room, spaced)
      (put_args-tail args ((bytes ++ (b' ' ∷ [])) ++ text arg)
          (omega (arith, h, split, grown, longer)) (All-right (text arg) (tail args) p.1)
        ∙ append_assoc (bytes ++ (b' ' ∷ [])) (text arg) (tail args)
        ∙ append_assoc bytes (b' ' ∷ []) (text arg ++ tail args))

pub put_args-sentence :
    (args : List (List ℕ))
    → length (sentence args) ≤ 126
    → All IsPlain (sentence args)
    → put_args true args [] ≡ sentence args
unfolding put_args
put_args-sentence [] h p = refl
put_args-sentence (arg ∷ args) h p =
    let split = length-append (text arg) (tail args) in
    let first =
      put_chars-text arg [] (omega (arith, h, split)) (All-left (text arg) (tail args) p) in
    rw first
      (put_args-tail args (text arg) (omega (arith, h, split)) (All-right (text arg) (tail args) p))

script_lines-line :
    (s line : List ℕ)
    → length line + length s ≤ 127
    → All IsPlain s
    → script_lines line (s ++ (10 ∷ [])) ≡ emit (line ++ s) []
unfolding script_lines
script_lines-line [] line h p = ap (λ l. emit l []) (sym (append_nil line))
script_lines-line (c ∷ s) line h p =
    let room : ltb (length line + 1) max_line ≡ true = ground (arith, h) in
    let no_feed : c == 10 ≡ false = ground (arith, p.0.1) in
    let no_return : c == 13 ≡ false = ground (arith, p.0.2) in
    rw (no_feed, no_return, room)
      (script_lines-line s (line ++ (c ∷ [])) (omega (arith, h, length-append line (c ∷ []))) p.1
        ∙ ap (λ l. emit l []) (append_assoc line (c ∷ []) s))

-- What the write command puts into a file, the source command runs as one line, or none if it is
-- empty: the words with a space between them, where these are at most 126 bytes and none of them ends
-- a line.
pub script_lines-file_bytes :
    (args : List (List ℕ))
    → length (sentence args) ≤ 126
    → All IsPlain (sentence args)
    → script_lines [] (file_bytes args) ≡ emit (sentence args) []
unfolding file_bytes
script_lines-file_bytes args h p =
    rw (put_args-sentence args h p) (script_lines-line (sentence args) [] (omega (arith, h)) p)
