-- ===== src/Terminal/Echo.antt =====
-- What terminal_read_line writes: to the array within its bound, and to the console no typed
-- character while the echo is off.
use existent_os.Prelude.{
  ℕ, ◌+◌, ◌-◌, ◌<◌, ◌≡◌, refl, ◌∙◌, Bool, false, List, [], ◌∷◌, some, arith, Bool-cases, ◌⊎◌, inl,
  inr, ◌==◌, leb, length, set, drop, drop-set, length-set, All,
}
use mathlib.Core.Path.{subst}
use existent_os.Terminal.{Input, take_key, read_keys, read_line}

-- The state after the carriage return.
abbrev finished : Input → Input
finished s = record s { line = set s.line s.length 0; written = (13 ∷ 10 ∷ []) ∷ s.written }

-- What each round and the end keep holds of the result.
read_keys_keep :
    (P : Input → Type 0) (echo : Bool) (room : ℕ)
    → ((key : ℕ) (s : Input) → P s → P (take_key echo room key s))
    → ((s : Input) → P s → P (finished s))
    → (keys : List ℕ) (s : Input) → P s
    → (r : Input) (left : List ℕ) → read_keys echo room keys s ≡ some (r, left)
    → P r
unfolding read_keys
read_keys_keep P echo room round end [] s p r left h = absurd (cc (h))
read_keys_keep P echo room round end (key ∷ keys) s p r left h = elim (Bool-cases (key == 13)) [
  | inl e ↦
      let whole = rw e at h in let same : finished s ≡ r = cc (whole) in subst P same (end s p)
  | inr e ↦
      read_keys_keep P echo room round end keys (take_key echo room key s) (round key s p) r left
        (rw e at h)
]

-- A key that moves the cursor moves it within the room.
record Inside (room : ℕ) (line : List ℕ) (s : Input) : Type 0 where
  within : s.length < room
  size : length s.line ≡ length line
  beyond : drop room s.line ≡ drop room line

take_key-Inside :
    (echo : Bool) (room : ℕ) (line : List ℕ) (key : ℕ) (s : Input)
    → Inside room line s
    → Inside room line (take_key echo room key s)
unfolding take_key
take_key-Inside echo room line key s p = elim (Bool-cases (key == 0)) [
  | inl z ↦ rw z p
  | inr z ↦ elim (Bool-cases (key == 8)) [
    | inl back ↦ elim (Bool-cases (s.length == 0)) [
      | inl e ↦ rw (z, back, e) p
      | inr e ↦
          rw (z, back, e)
            (record {
              within = omega (arith, p.within);
              size = length-set s.line (s.length - 1) 0 ∙ p.size;
              beyond = drop-set room (s.length - 1) s.line 0 (omega (arith, p.within)) ∙ p.beyond;
            })
    ]
    | inr char ↦ elim (Bool-cases (leb room (s.length + 1))) [
      | inl full ↦ rw (z, char, full) p
      | inr free ↦
          rw (z, char, free)
            (record {
              within = ground arith;
              size = length-set s.line s.length key ∙ p.size;
              beyond = drop-set room s.length s.line key (omega (arith, p.within)) ∙ p.beyond;
            })
    ]
  ]
]

-- With room for at least one cell, a line that terminal_read_line returns is shorter than the room,
-- and no cell of the array beyond the room has changed.
pub read_line_within :
    (echo : Bool) (room : ℕ) (line keys : List ℕ) (r : Input) (left : List ℕ)
    → 0 < room
    → read_line echo room line keys ≡ some (r, left)
    → (r.length < room) × (length r.line ≡ length line) × (drop room r.line ≡ drop room line)
unfolding read_line
read_line_within echo room line keys r left positive h =
    let inside =
      read_keys_keep (Inside room line) echo room (take_key-Inside echo room line)
        (λ s p. record {
          within = p.within;
          size = length-set s.line s.length 0 ∙ p.size;
          beyond = drop-set room s.length s.line 0 p.within ∙ p.beyond;
        })
        keys _ (record { within = positive; size = refl; beyond = refl }) r left h in
    (inside.within, inside.size, inside.beyond)

-- Erasing a character, and the end of the line.
abbrev pub IsSilent : List ℕ → Type 0
IsSilent t = (t ≡ 8 ∷ b' ' ∷ 8 ∷ []) ⊎ (t ≡ 13 ∷ 10 ∷ [])

take_key-IsSilent :
    (room key : ℕ) (s : Input)
    → All IsSilent s.written
    → All IsSilent (take_key false room key s).written
unfolding take_key
take_key-IsSilent room key s p = elim (Bool-cases (key == 0)) [
  | inl z ↦ rw z p
  | inr z ↦ elim (Bool-cases (key == 8)) [
    | inl back ↦ elim (Bool-cases (s.length == 0)) [
      | inl e ↦ rw (z, back, e) p
      | inr e ↦ rw (z, back, e) (inl refl, p)
    ]
    | inr char ↦ elim (Bool-cases (leb room (s.length + 1))) [
      | inl full ↦ rw (z, char, full) p
      | inr free ↦ rw (z, char, free) p
    ]
  ]
]

-- While the echo is off, terminal_read_line writes nothing but erasures and the end of the line,
-- whatever is typed.
pub read_line-IsSilent :
    (room : ℕ) (line keys : List ℕ) (r : Input) (left : List ℕ)
    → read_line false room line keys ≡ some (r, left)
    → All IsSilent r.written
unfolding read_line
read_line-IsSilent room line keys r left h =
    read_keys_keep (λ s. All IsSilent s.written) false room (take_key-IsSilent room)
      (λ s p. (inr refl, p)) keys _ tt r left h
