-- ===== src/Firmware.antt =====
-- The UEFI protocols that the loader calls (boot/efi.h). They are the firmware's code and not the
-- repository's, so they are a parameter: a state `World` and one function for each call.
-- A pointer that a call hands out is a number, and 0 is the null pointer. A status is a number,
-- and 0 is EFI_SUCCESS.
pub mod OpenFile
pub mod OneFile
pub mod ReadOnly
pub mod Sequential
use existent_os.Prelude.{ℕ, Bool, not, List, ◌==◌}

-- A read returns the status and the bytes it put in the buffer, whose number is what it stores in
-- `*BufferSize`. A write returns the status and what it stores in `*BufferSize`. `flush` does
-- nothing where the protocol's Flush pointer is null.
pub record Firmware : Type 1 where
  pub World : Type 0
  pub locate_protocol : World → ℕ × ℕ × World
  pub open_volume : ℕ → World → ℕ × ℕ × World
  pub open_path : ℕ → List ℕ → ℕ → ℕ → World → ℕ × ℕ × World
  pub close : ℕ → World → World
  pub delete : ℕ → World → ℕ × World
  pub read : ℕ → ℕ → World → ℕ × List ℕ × World
  pub write : ℕ → List ℕ → World → ℕ × ℕ × World
  pub set_position : ℕ → ℕ → World → ℕ × World
  pub flush : ℕ → World → World

-- EFI_ERROR
abbrev pub is_error : ℕ → Bool
is_error status = not (status == 0)

abbrev pub mode_read : ℕ
mode_read = 0x1

abbrev pub mode_read_write : ℕ
mode_read_write = 0x3

abbrev pub mode_create : ℕ
mode_create = 0x8000000000000003
