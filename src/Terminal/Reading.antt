-- ===== src/Terminal/Reading.antt =====
-- Reading a line: the array holds what was typed, with the corrections, and never overflows.
use existent_os.Prelude.{
  ℕ, zero, suc, ◌+◌, ◌-◌, ◌<◌, ◌≤◌, ◌≡◌, refl, sym, ◌∙◌, ap, Bool, true, false, List, [], ◌∷◌, ◌++◌,
  Option, some, none, arith, Bool-cases, inl, inr, ◌==◌, leb, if◌then◌else◌, length, set, take, All,
  All-append, length-set, length-append,
}
use mathlib.Core.Path.{subst}
use existent_os.CString.{text}
use existent_os.Terminal.{Input, take_key, read_keys, read_line}

-- A key on the text typed so far: no character, a correction, or a character if there is room.
abbrev pub edit : ℕ → ℕ → List ℕ → List ℕ
edit room key typed =
    if key == 0
    then typed
    else if key == 8
    then take (length typed - 1) typed
    else if leb room (length typed + 1)
    then typed
    else typed ++ (key ∷ [])

-- The text typed up to the carriage return, and the keys that are left.
abbrev pub typed_line : ℕ → List ℕ → List ℕ → Option (List ℕ × List ℕ)
typed_line room [] typed = none
typed_line room (key ∷ keys) typed =
    let rest = typed_line room keys (edit room key typed) in
    if key == 13 then some (typed, keys) else rest

-- What the array holds before its terminator.
record Typed (room : ℕ) (s : Input) (typed : List ℕ) : Type 0 where
  counted : s.length ≡ length typed
  within : s.length < room
  fits : room ≤ length s.line
  held : take s.length s.line ≡ typed
  plain : All (λ c. c == 0 ≡ false) typed

take-set-suc :
    (i : ℕ) (xs : List ℕ) (v : ℕ)
    → i < length xs
    → take (suc i) (set xs i v) ≡ take i xs ++ (v ∷ [])
take-set-suc i [] v h = absurd (omega arith)
take-set-suc zero (x ∷ xs) v h = refl
take-set-suc (suc i) (x ∷ xs) v h = ap (λ t. x ∷ t) (take-set-suc i xs v (omega arith))

take-set : (i : ℕ) (xs : List ℕ) (v : ℕ) → take i (set xs i v) ≡ take i xs
take-set zero xs v = refl
take-set (suc i) [] v = refl
take-set (suc i) (x ∷ xs) v = ap (λ t. x ∷ t) (take-set i xs v)

take-take : (i j : ℕ) (xs : List ℕ) → i ≤ j → take i (take j xs) ≡ take i xs
take-take zero j xs h = refl
take-take (suc i) zero xs h = absurd (omega arith)
take-take (suc i) (suc j) [] h = refl
take-take (suc i) (suc j) (x ∷ xs) h = ap (λ t. x ∷ t) (take-take i j xs (omega arith))

length-take_le : (i : ℕ) (xs : List ℕ) → i ≤ length xs → length (take i xs) ≡ i
length-take_le zero xs h = refl
length-take_le (suc i) [] h = absurd (omega arith)
length-take_le (suc i) (x ∷ xs) h = ap suc (length-take_le i xs (omega arith))

All-take : (P : ℕ → Type 0) (i : ℕ) (xs : List ℕ) → All P xs → All P (take i xs)
All-take P zero xs h = tt
All-take P (suc i) [] h = tt
All-take P (suc i) (x ∷ xs) h = (h.0, All-take P i xs h.1)

text-set_end :
    (i : ℕ) (xs : List ℕ)
    → i < length xs
    → All (λ c. c == 0 ≡ false) (take i xs)
    → text (set xs i 0) ≡ take i xs
text-set_end i [] h all = absurd (omega arith)
text-set_end zero (x ∷ xs) h all = refl
text-set_end (suc i) (x ∷ xs) h all =
    rw (all.0) (ap (λ t. x ∷ t) (text-set_end i xs (omega arith) all.1))

take_no_length : (xs : List ℕ) → length xs ≡ 0 → take (length xs - 1) xs ≡ xs
take_no_length [] h = refl
take_no_length (x ∷ xs) h = absurd (omega arith)

-- What a caller sees of a line that was read: the string, its length and the keys that are left.
abbrev pub seen : Option (Input × List ℕ) → Option (List ℕ × ℕ × List ℕ)
seen none = none
seen (some (s, keys)) = some (text s.line, s.length, keys)

-- The same of a text that was typed.
abbrev pub expected : Option (List ℕ × List ℕ) → Option (List ℕ × ℕ × List ℕ)
expected none = none
expected (some (typed, keys)) = some (typed, length typed, keys)

module _ (echo : Bool) (room : ℕ) where
  take_key-Typed :
      (key : ℕ) (s : Input) (typed : List ℕ)
      → Typed room s typed
      → Typed room (take_key echo room key s) (edit room key typed)
  unfolding take_key
  take_key-Typed key s typed t = elim (Bool-cases (key == 0)) [
    | inl z ↦ rw z t
    | inr z ↦ elim (Bool-cases (key == 8)) [
      | inl back ↦ rw (z, back) (corrected)
      | inr char ↦ elim (Bool-cases (leb room (s.length + 1))) [
        | inl full ↦
            let full' : leb room (length typed + 1) ≡ true = ground (arith, t.counted) in
            rw (z, char, full, full') t
        | inr free ↦
            let free' : leb room (length typed + 1) ≡ false = ground (arith, t.counted) in
            rw (z, char, free, free') (added z free)
      ]
    ]
  ]
    where
      corrected :
          Typed room
            (if s.length == 0 then s else record {
              line = set s.line (s.length - 1) 0;
              length = s.length - 1;
              written = (8 ∷ b' ' ∷ 8 ∷ []) ∷ s.written;
            })
            (take (length typed - 1) typed)
      corrected = elim (Bool-cases (s.length == 0)) [
        | inl e ↦
            let same : take (length typed - 1) typed ≡ typed =
              take_no_length typed (ground (arith, t.counted)) in
            rw (e, same) t
        | inr e ↦ rw e (record {
          counted = omega (arith, t.counted, length-take_le (length typed - 1) typed (omega arith));
          within = omega (arith, t.within);
          fits = omega (arith, t.fits, length-set s.line (s.length - 1) 0);
          held =
              take-set (s.length - 1) s.line 0
              ∙ sym (take-take (s.length - 1) s.length s.line (omega arith))
              ∙ (λ i. take (t.counted i - 1) (t.held i));
          plain = All-take _ (length typed - 1) typed t.plain;
        })
      ]

      added :
          key == 0 ≡ false
          → leb room (s.length + 1) ≡ false
          → Typed room
              (record {
                line = set s.line s.length key;
                length = s.length + 1;
                written = if echo then (key ∷ []) ∷ s.written else s.written;
              })
              (typed ++ (key ∷ []))
      added z free = record {
        counted = omega (arith, t.counted, length-append typed (key ∷ []));
        within = ground arith;
        fits = omega (arith, t.fits, length-set s.line s.length key);
        held =
            ap (λ (n : ℕ). take n (set s.line s.length key)) {y = suc s.length} (omega arith)
            ∙ take-set-suc s.length s.line key (omega (arith, t.within, t.fits))
            ∙ ap (λ ts. ts ++ (key ∷ [])) t.held;
        plain = All-append _ typed (key ∷ []) t.plain (z, tt);
      }

  read_keys-typed_line :
      (keys : List ℕ) (s : Input) (typed : List ℕ)
      → Typed room s typed
      → seen (read_keys echo room keys s) ≡ expected (typed_line room keys typed)
  unfolding read_keys
  read_keys-typed_line [] s typed t = refl
  read_keys-typed_line (key ∷ keys) s typed t = elim (Bool-cases (key == 13)) [
    | inl e ↦
        let ended : text (set s.line s.length 0) ≡ take s.length s.line =
          text-set_end s.length s.line (omega (arith, t.within, t.fits))
            (subst (All (λ c. c == 0 ≡ false)) (sym t.held) t.plain) in
        rw e (λ i. some ((ended ∙ t.held) i, t.counted i, keys))
    | inr e ↦ rw e (
        read_keys-typed_line keys (take_key echo room key s) (edit room key typed)
          (take_key-Typed key s typed t))
  ]

  -- Into an array of at least `room` cells, terminal_read_line reads the text that was typed up to
  -- the carriage return, with its corrections and without the characters for which there was no
  -- room, whether or not the characters are echoed and whatever the array held; without a carriage
  -- return it waits.
  pub read_line-typed_line :
      (line keys : List ℕ)
      → 0 < room
      → room ≤ length line
      → seen (read_line echo room line keys) ≡ expected (typed_line room keys [])
  unfolding read_line
  read_line-typed_line line keys positive fits =
      read_keys-typed_line keys _ []
        (record { counted = refl; within = positive; fits = fits; held = refl; plain = tt })
