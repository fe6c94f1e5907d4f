-- ===== src/Firmware/ReadOnly.antt =====
-- A firmware whose volume holds one file that is never changed, whatever its path: an instance of
-- the parameter.
use existent_os.Prelude.{ℕ, zero, suc, ◌≤◌, List, [], ◌∷◌, take, length, length-take, All, arith}
use existent_os.Firmware.{Firmware}

abbrev pub read_only : List ℕ → Firmware
read_only bytes = record {
  World = Unit {0};
  locate_protocol = λ w. (0, 1, w);
  open_volume = λ fs w. (0, 1, w);
  open_path = λ root path mode attributes w. (0, 1, w);
  close = λ file w. w;
  delete = λ file w. (8, w);
  read = λ file size w. (0, take size bytes, w);
  write = λ file bytes w. (8, 0, w);
  set_position = λ file position w. (0, w);
  flush = λ file w. w;
}

pub All-take : (P : ℕ → Type 0) (n : ℕ) (xs : List ℕ) → All P xs → All P (take n xs)
All-take P zero xs h = tt
All-take P (suc n) [] h = tt
All-take P (suc n) (x ∷ xs) h = (h.0, All-take P n xs h.1)

pub read_within : (n : ℕ) (xs : List ℕ) → length (take n xs) ≤ n
read_within n xs = omega (arith, length-take n xs)
