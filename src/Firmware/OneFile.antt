-- ===== src/Firmware/OneFile.antt =====
-- A firmware whose volume holds one file at most, whatever its path: an instance of the parameter.
use existent_os.Prelude.{
  ℕ, ◌≡◌, refl, sym, true, List, [], ◌∷◌, ◌++◌, Option, none, some, length, take, drop, ltb,
  if◌then◌else◌, ap,
}
use existent_os.Firmware.{Firmware}
use existent_os.Firmware.OpenFile.{open_file, IsDurable}

abbrev pub contents : Option (List ℕ) → List ℕ
contents none = []
contents (some bytes) = bytes

-- Opening a missing file fails unless the mode creates it.
abbrev open_one : ℕ → Option (List ℕ) → ℕ × ℕ × Option (List ℕ)
open_one mode none = if ltb mode 0x8000000000000000 then (14, 0, none) else (0, 1, some [])
open_one mode (some bytes) = (0, 1, some bytes)

abbrev pub one_file : Firmware
one_file = record {
  World = Option (List ℕ);
  locate_protocol = λ w. (0, 1, w);
  open_volume = λ fs w. (0, 1, w);
  open_path = λ root path mode attributes w. open_one mode w;
  close = λ file w. w;
  delete = λ file w. (0, none);
  read = λ file size w. (0, take size (contents w), w);
  write = λ file bytes w. (0, length bytes, some (bytes ++ drop (length bytes) (contents w)));
  set_position = λ file position w. (0, w);
  flush = λ file w. w;
}

take-length-append : (xs ys : List ℕ) → take (length xs) (xs ++ ys) ≡ xs
take-length-append [] ys = refl
take-length-append (x ∷ xs) ys = ap (λ t. x ∷ t) (take-length-append xs ys)

pub one_file-IsDurable : IsDurable one_file true
unfolding open_file
one_file-IsDurable = record {
  reads_back = λ path mode attributes file bytes w w₁ w₂ w₃ opened placed written.
      let stored : w₃ ≡ some (bytes ++ drop (length bytes) (contents w₂)) =
        ap (λ (t : ℕ × ℕ × Option (List ℕ)). t.2) (sym written) in
      (1, w₃, w₃, rw stored, rw (stored, take-length-append));
}
