-- ===== src/Boot/Loaded.antt =====
-- What is in memory when the kernel is called.
use existent_os.Prelude.{
  ◌∙◌, ℕ, zero, suc, ◌-◌, ◌<◌, ◌≤◌, ◌≡◌, ◌≢◌, refl, ap, Bool, true, false, ◌||◌, List, ◌∷◌, ◌++◌,
  Option, none, some, arith, ◌==◌, length, Bool-cases, inl, inr, drop, replicate,
}
use existent_os.CString.{chars}
use existent_os.Firmware.{Firmware, is_error, mode_read}
use existent_os.Boot.{MemoryMap, Services, Outcome, failed, left, again}
use existent_os.Boot.Loading.{
  Image, kernel_load_address, kernel_max_bytes, kernel_path, load_error, zeroed, overwritten, fill,
  load_opened, load_in, load_from, load_kernel,
}
use existent_os.Boot.Main.{Ending, kernel, returned, services, fail, after_leaving, start_kernel}
use existent_os.Boot.Settled.{Settles, HasReturned, leave_boot_services-HasReturned}
use existent_os.Shell.State.{State}
use existent_os.Shell.Run.{Run, done, waiting, exhausted}

-- What the UEFI specification says of the calls that succeed: they hand out a pointer that is not
-- null, a read stores no more than was asked for, and pages asked for at an address are there.
pub record IsSound (F : Firmware) (allocate_pages : ℕ → ℕ → F.World → ℕ × ℕ × F.World)
    : Type 0 where
  pub located : (w : F.World) → (F.locate_protocol w).0 ≡ 0 → (F.locate_protocol w).1 ≢ 0
  pub volume : (fs : ℕ) (w : F.World) → (F.open_volume fs w).0 ≡ 0 → (F.open_volume fs w).1 ≢ 0
  pub opened :
      (root : ℕ) (path : List ℕ) (mode attributes : ℕ) (w : F.World)
      → (F.open_path root path mode attributes w).0 ≡ 0
      → (F.open_path root path mode attributes w).1 ≢ 0
  pub within : (file size : ℕ) (w : F.World) → length (F.read file size w).1 ≤ size
  pub placed :
      (pages address : ℕ) (w : F.World)
      → (allocate_pages pages address w).0 ≡ 0
      → (allocate_pages pages address w).1 ≡ address

module _ (F : Firmware) (allocate_pages : ℕ → ℕ → F.World → ℕ × ℕ × F.World) where
  abbrev given : F.World → ℕ × ℕ × F.World
  given w = allocate_pages 256 0x200000 w

  -- What one read of at most a megabyte of the file answers, after the pages were given.
  abbrev contents : ℕ → F.World → ℕ × List ℕ × F.World
  contents file w = F.read file 0x100000 (given w).2

  -- The memory of an image is the megabyte at 0x200000: the bytes that one read of the file
  -- answers, at least one and at most a megabyte, and zeros in the rest.
  pub record IsRead (file : ℕ) (w : F.World) (image : Image) : Type 0 where
    pub allocated : (given w).0 ≡ 0
    pub address : image.address ≡ 0x200000
    pub is_read : (contents file w).0 ≡ 0
    pub present : 0 < length (contents file w).1
    pub fits : length (contents file w).1 ≤ 0x100000
    pub bytes :
        image.bytes ≡ (contents file w).1 ++ replicate (0x100000 - length (contents file w).1) 0

  -- The file that is read is `\kernel.bin`, opened for reading in this folder.
  pub record IsKernelIn (root : ℕ) (w : F.World) (image : Image) : Type 0 where
    pub opened : (F.open_path root (92 ∷ chars "kernel.bin") 1 0 w).0 ≡ 0
    pub filled :
        IsRead
          (F.open_path root (92 ∷ chars "kernel.bin") 1 0 w).1
          (F.open_path root (92 ∷ chars "kernel.bin") 1 0 w).2
          image

  -- The folder is the root of the volume that the firmware locates.
  pub record IsKernel (w : F.World) (image : Image) : Type 0 where
    pub located : (F.locate_protocol w).0 ≡ 0
    pub volume : (F.open_volume (F.locate_protocol w).1 (F.locate_protocol w).2).0 ≡ 0
    pub found :
        IsKernelIn
          (F.open_volume (F.locate_protocol w).1 (F.locate_protocol w).2).1
          (F.open_volume (F.locate_protocol w).1 (F.locate_protocol w).2).2
          image

-- There is an image, and it has the property.
abbrev pub Has : (Image → Type 0) → Option Image → Type 0
Has P none = ⊥
Has P (some image) = P image

Has-map : {P Q : Image → Type 0} (o : Option Image) → ((i : Image) → P i → Q i) → Has P o → Has Q o
Has-map none f h = h
Has-map (some image) f h = f image h

drop-replicate : (k n a : ℕ) → drop k (replicate n a) ≡ replicate (n - k) a
drop-replicate zero n a = ap (λ (k : ℕ). replicate k a) (omega arith)
drop-replicate (suc k) zero a = ap (λ (j : ℕ). replicate j a) {x = 0} {y = 0 - suc k} (omega arith)
drop-replicate (suc k) (suc n) a =
    drop-replicate k n a ∙ ap (λ (j : ℕ). replicate j a) (omega arith)

overwritten_lem :
    (bytes : List ℕ) → overwritten bytes ≡ bytes ++ replicate (0x100000 - length bytes) 0
unfolding overwritten zeroed
overwritten_lem bytes = ap (λ (r : List ℕ). bytes ++ r) (drop-replicate (length bytes) 0x100000 0)

module _ (F : Firmware) (allocate_pages : ℕ → ℕ → F.World → ℕ × ℕ × F.World)
    (sound : IsSound F allocate_pages) where
  -- What was loaded, if the status is EFI_SUCCESS.
  abbrev Answers : (Image → Type 0) → ℕ × Option Image × F.World → Type 0
  Answers P (status, image, w) = status ≡ 0 → Has P image

  fill-Answers :
      (file : ℕ) (w : F.World)
      → (allocate_pages 256 kernel_load_address w).0 ≡ 0
      → Answers (IsRead F allocate_pages file w) (
          fill F allocate_pages file
            (allocate_pages 256 kernel_load_address w).1
            (allocate_pages 256 kernel_load_address w).2)
  unfolding fill
  fill-Answers file w given success = record {
    allocated = given;
    address = sound.placed 256 kernel_load_address w given;
    is_read = ground arith;
    present = ground arith;
    fits = sound.within file kernel_max_bytes _;
    bytes = overwritten_lem _;
  }

  load_opened-Answers :
      (file : ℕ) (w : F.World)
      → Answers (IsRead F allocate_pages file w) (load_opened F allocate_pages file w)
  unfolding load_opened
  load_opened-Answers file w =
      elim (Bool-cases (is_error (allocate_pages 256 kernel_load_address w).0)) [
        | inl e ↦ rw e (λ success. absurd (ground arith))
        | inr e ↦ rw e (fill-Answers file w (ground arith))
      ]

  load_in-Answers :
      (root : ℕ) (w : F.World)
      → Answers (IsKernelIn F allocate_pages root w) (load_in F allocate_pages root w)
  unfolding load_in
  load_in-Answers root w =
      let opened = F.open_path root kernel_path mode_read 0 w in
      let valid = sound.opened root kernel_path mode_read 0 w in
      elim (Bool-cases (is_error opened.0 || opened.1 == 0)) [
        | inl e ↦ rw e (λ success. absurd (ground arith))
        | inr e ↦ rw e (λ success.
            Has-map {P = IsRead F allocate_pages opened.1 opened.2}
              {Q = IsKernelIn F allocate_pages root w} _
              (λ i filled. record { opened = ground arith; filled = filled })
              (load_opened-Answers opened.1 opened.2 success))
      ]

  load_from-Answers :
      (w : F.World)
      → (F.locate_protocol w).0 ≡ 0
      → Answers
          (IsKernel F allocate_pages w)
          (load_from F allocate_pages (F.locate_protocol w).1 (F.locate_protocol w).2)
  unfolding load_from
  load_from-Answers w located =
      let fs = F.locate_protocol w in
      let volume = F.open_volume fs.1 fs.2 in
      let valid = sound.volume fs.1 fs.2 in
      elim (Bool-cases (is_error volume.0 || volume.1 == 0)) [
        | inl e ↦ rw e (λ success. absurd (ground arith))
        | inr e ↦ rw e (λ success.
            Has-map {P = IsKernelIn F allocate_pages volume.1 volume.2}
              {Q = IsKernel F allocate_pages w} _
              (λ i found. record { located = located; volume = ground arith; found = found })
              (load_in-Answers volume.1 volume.2 success))
      ]

  -- On firmware that keeps to its specification, efi_load_kernel answers EFI_SUCCESS only if the
  -- bytes of `\kernel.bin` are in memory, at least one and at most a megabyte, with zeros after
  -- them, at the address that efi_main calls.
  pub load_kernel-IsKernel :
      (ready : Bool) (w : F.World)
      → (load_kernel F allocate_pages ready w).0 ≡ 0
      → Has (IsKernel F allocate_pages w) (load_kernel F allocate_pages ready w).1
  unfolding load_kernel
  load_kernel-IsKernel false w success = absurd (ground arith)
  load_kernel-IsKernel true w success =
      let fs = F.locate_protocol w in
      let valid = sound.located w in
      elim (Bool-cases (is_error fs.0 || fs.1 == 0)) [
        | inl e ↦ absurd (ground arith)
        | inr e ↦ rw e (load_from-Answers w (ground arith) (rw e at (success)))
      ]

-- The kernel is called with its file, as the volume has it from this state on, in memory; a return
-- is EFI_LOAD_ERROR.
abbrev pub IsSafe : (F : Firmware) → (ℕ → ℕ → F.World → ℕ × ℕ × F.World) → F.World → Ending → Type 0
IsSafe F allocate_pages w (kernel info image) = Has (IsKernel F allocate_pages w) image
IsSafe F allocate_pages w (returned status) = status ≡ load_error

-- A run that is over, with an ending that has a property.
abbrev pub EndsIn : {World : Type 0} → (Ending → Type 0) → Run World Ending → Type 0
EndsIn P (done e s) = P e
EndsIn P waiting = ⊥
EndsIn P exhausted = ⊥

module _ (F : Firmware) (allocate_pages : ℕ → ℕ → F.World → ℕ × ℕ × F.World)
    (get_memory_map : F.World → MemoryMap × F.World)
    (exit_boot_services : ℕ → F.World → ℕ × F.World) (ready : Bool) (fresh : ℕ → List ℕ) where
  -- With what start_kernel leaves the boot services.
  abbrev pub exit_services : Services
  exit_services = services F allocate_pages get_memory_map exit_boot_services ready fresh

  after_leaving-IsSafe :
      (w : F.World) (r : Option (Outcome × F.World)) (image : Option Image) (s : State F.World)
      → Has (IsKernel F allocate_pages w) image
      → HasReturned r
      → EndsIn
          (IsSafe F allocate_pages w)
          (after_leaving F allocate_pages get_memory_map exit_boot_services ready fresh r image s)
  unfolding after_leaving fail
  after_leaving-IsSafe v none image s h k = absurd k
  after_leaving-IsSafe v (some (left total, w)) image s h k = h
  after_leaving-IsSafe v (some (failed status, w)) image s h k = elim (Bool-cases (status == 0)) [
    | inl e ↦ rw e h
    | inr e ↦ rw e refl
  ]
  after_leaving-IsSafe v (some (again, w)) image s h k = absurd (cc (k))

  -- On firmware that keeps to its specification and whose exit fails fewer than `tries` times in a
  -- row for a stale key, the end of efi_main is reached on fuel of at least `tries`: the kernel is
  -- called, and then the megabyte at 0x200000 has the bytes of `\kernel.bin`, at least one, and
  -- zeros after them, or EFI_LOAD_ERROR is returned.
  pub start_kernel-IsSafe :
      (tries fuel : ℕ) (s : State F.World)
      → IsSound F allocate_pages
      → Settles exit_services tries
      → tries ≤ fuel
      → EndsIn
          (IsSafe F allocate_pages s.world)
          (start_kernel F allocate_pages get_memory_map exit_boot_services ready fresh fuel s)
  unfolding start_kernel fail
  start_kernel-IsSafe tries fuel s sound settles enough =
      let loaded = load_kernel-IsKernel F allocate_pages sound ready s.world in
      elim (Bool-cases ((load_kernel F allocate_pages ready s.world).0 == 0)) [
        | inl e ↦ rw e (
            after_leaving-IsSafe s.world _ _ _ (loaded (ground arith))
              (leave_boot_services-HasReturned exit_services tries fuel ready _ settles enough))
        | inr e ↦ rw e refl
      ]
