-- ===== src/Boot/Loading.antt =====
-- efi_load_kernel of OSC/boot/efi_main.c. AllocatePages is the firmware's and a parameter: it takes
-- the number of pages and the address wanted, and returns the status and the address given.
use existent_os.Prelude.{
  ℕ, Bool, not, ◌||◌, List, ◌∷◌, ◌++◌, Option, none, some, ◌==◌, if◌then◌else◌, length, drop,
  replicate,
}
use existent_os.CString.{chars}
use existent_os.Firmware.{Firmware, is_error, mode_read}

abbrev pub kernel_load_address : ℕ
kernel_load_address = 0x200000

abbrev pub kernel_max_bytes : ℕ
kernel_max_bytes = 1048576

-- EFI_LOAD_ERROR
abbrev pub load_error : ℕ
load_error = 21

-- "\kernel.bin"
abbrev pub kernel_path : List ℕ
kernel_path = 92 ∷ chars "kernel.bin"

-- The memory that was allocated: the bytes of its pages from an address on.
pub record Image : Type 0 where
  pub address : ℕ
  pub bytes : List ℕ

-- The pages after the loop that stores 0 in each of their bytes.
unfoldable pub zeroed : List ℕ
zeroed = replicate kernel_max_bytes 0

-- The pages after a read that stores bytes at their start.
unfoldable pub overwritten : List ℕ → List ℕ
overwritten bytes = bytes ++ drop (length bytes) zeroed

module _ (F : Firmware) (allocate_pages : ℕ → ℕ → F.World → ℕ × ℕ × F.World) where
  open F use {World, locate_protocol, open_volume, open_path, read, close}

  -- The pages that were given are set to zeros, and the file is read into them.
  unfoldable pub fill : ℕ → ℕ → World → ℕ × Option Image × World
  fill kernel address w =
      let (status, bytes, w') = read kernel kernel_max_bytes w in
      (
        if length bytes == 0 then load_error else status,
        some (record { address = address; bytes = overwritten bytes }),
        w',
      )

  unfoldable pub load_opened : ℕ → World → ℕ × Option Image × World
  load_opened kernel w =
      let (status, address, w') = allocate_pages 256 kernel_load_address w in
      if is_error status then (status, none, w') else fill kernel address w'

  unfoldable pub load_in : ℕ → World → ℕ × Option Image × World
  load_in root w =
      let (status, kernel, w₁) = open_path root kernel_path mode_read 0 w in
      let (result, image, w₂) = load_opened kernel w₁ in
      if is_error status || kernel == 0
      then (status, none, close root w₁)
      else (result, image, close root (close kernel w₂))

  unfoldable pub load_from : ℕ → World → ℕ × Option Image × World
  load_from fs w =
      let (status, root, w') = open_volume fs w in
      if is_error status || root == 0 then (status, none, w') else load_in root w'

  -- `ready` is whether gBS and the two functions that are called are set.
  unfoldable pub load_kernel : Bool → World → ℕ × Option Image × World
  load_kernel ready w =
      let (status, fs, w') = locate_protocol w in
      if not ready
      then (load_error, none, w)
      else if is_error status || fs == 0
      then (status, none, w')
      else load_from fs w'
