-- ===== src/Firmware/OpenFile.antt =====
-- Opening a file of the boot volume by its path: the shape that `accounts_open`
-- (kernel/drivers/accounts.c) and `terminal_open_file` (boot/efi_main.c) share.
use existent_os.Prelude.{
  ℕ, Bool, true, false, not, ◌&&◌, ◌||◌, List, ◌==◌, if◌then◌else◌, true, length, ◌≡◌,
}
use existent_os.Firmware.{Firmware, is_error, mode_read}

module _ (F : Firmware) where
  open F use {World, locate_protocol, open_volume, open_path, close}

  -- `root->Open(...); root->Close(root); return !EFI_ERROR(status) && *file;`
  open_in : ℕ → List ℕ → ℕ → ℕ → World → Bool × ℕ × World
  open_in root path mode attributes w =
      let (status, file, w') = open_path root path mode attributes w in
      (not (is_error status) && not (file == 0), file, close root w')

  open_root : ℕ → List ℕ → ℕ → ℕ → World → Bool × ℕ × World
  unfolding open_in
  open_root fs path mode attributes w =
      let (status, root, w') = open_volume fs w in
      if is_error status then (false, 0, w') else open_in root path mode attributes w'

  -- `ready` is `gBS && gBS->LocateProtocol`. The number is what the call leaves in `*file`.
  unfoldable pub open_file : Bool → List ℕ → ℕ → ℕ → World → Bool × ℕ × World
  unfolding open_root
  open_file ready path mode attributes w =
      let (status, fs, w') = locate_protocol w in
      if not ready
      then (false, 0, w)
      else if is_error status || fs == 0
      then (false, 0, w')
      else open_root fs path mode attributes w'

-- What UEFI promises of a file that was written from its start and closed: opened again for
-- reading, the read of as many bytes gives the bytes written.
pub record IsDurable (F : Firmware) (ready : Bool) : Type 0 where
  pub reads_back :
      (path : List ℕ) (mode attributes file : ℕ) (bytes : List ℕ) (w w₁ w₂ w₃ : F.World)
      → open_file F ready path mode attributes w ≡ (true, file, w₁)
      → F.set_position file 0 w₁ ≡ (0, w₂)
      → F.write file bytes w₂ ≡ (0, length bytes, w₃)
      → (again : ℕ) × (w₅ w₆ : F.World) × (open_file F ready path mode_read 0
            (F.close file (F.flush file w₃))
          ≡ (true, again, w₅))
        × (F.read again (length bytes) w₅ ≡ (0, bytes, w₆))
