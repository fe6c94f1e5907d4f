-- ===== src/Firmware/Sequential.antt =====
-- A firmware whose volume holds one file that is never changed, whatever its path, and that reads on
-- from the position where the last read stopped: an instance of the parameter.
use existent_os.Prelude.{ℕ, zero, suc, ◌+◌, ◌-◌, ◌<◌, ◌≡◌, List, [], ◌∷◌, take, drop, length, arith}
use existent_os.Firmware.{Firmware}

abbrev pub sequential : List ℕ → Firmware
sequential bytes = record {
  World = ℕ;
  locate_protocol = λ w. (0, 1, w);
  open_volume = λ fs w. (0, 1, w);
  open_path = λ root path mode attributes w. (0, 1, 0);
  close = λ file w. w;
  delete = λ file w. (8, w);
  read = λ file size w. (0, take size (drop w bytes), w + length (take size (drop w bytes)));
  write = λ file bytes w. (8, 0, w);
  set_position = λ file position w. (0, position);
  flush = λ file w. w;
}

-- A read that fills its buffer leaves less of the file.
pub read_fewer :
    (size w : ℕ) (bytes : List ℕ)
    → 0 < size
    → length (take size (drop w bytes)) ≡ size
    → length bytes - (w + size) < length bytes - w
read_fewer zero w bytes positive full = absurd (omega arith)
read_fewer (suc size) zero [] positive full = absurd (omega arith)
read_fewer (suc size) zero (x ∷ bytes) positive full = omega arith
read_fewer (suc size) (suc w) [] positive full = absurd (omega arith)
read_fewer (suc size) (suc w) (x ∷ bytes) positive full =
    omega (arith, read_fewer (suc size) w bytes positive full)
