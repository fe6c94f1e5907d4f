-- ===== src/Boot/Left.antt =====
-- What is true of the firmware when efi_leave_boot_services has returned.
use existent_os.Prelude.{
  ℕ, zero, suc, ◌≡◌, ◌≢◌, refl, Bool, true, false, ◌||◌, ◌==◌, Option, none, some, arith,
  Bool-cases, inl, inr,
}
use existent_os.Firmware.{is_error}
use existent_os.Boot.{
  MemoryMap, Services, Outcome, failed, left, again, total_memory, try_exit, round, go_on, rounds,
  leave_boot_services,
}

-- A map that is read has descriptors of some size.
pub record HasSizes (S : Services) : Type 0 where
  pub sized :
      (w : S.World) → (S.get_memory_map w).0.status ≡ 0 → (S.get_memory_map w).0.descriptor_size ≢ 0

-- The boot services were left, with the key of a map that was read just before, and the total is that
-- of this map.
pub record IsLeft (S : Services) (total : ℕ) (w' : S.World) : Type 0 where
  pub w : S.World
  pub got : (S.get_memory_map w).0.status ≡ 0
  pub exited : S.exit_boot_services (S.get_memory_map w).0.key (S.get_memory_map w).1 ≡ (0, w')
  pub total_is : total ≡ total_memory (S.get_memory_map w).0

module _ (S : Services) where
  abbrev pub Leaves : Outcome × S.World → Type 0
  Leaves (failed status, w) = status ≢ 0
  Leaves (left total, w) = IsLeft S total w
  Leaves (again, w) = Unit {0}

  abbrev pub LeavesIfAny : Option (Outcome × S.World) → Type 0
  LeavesIfAny none = Unit {0}
  LeavesIfAny (some r) = Leaves r

  try_exit-Leaves :
      (w : S.World)
      → (S.get_memory_map w).0.status ≡ 0
      → Leaves (try_exit S (S.get_memory_map w).0 (S.get_memory_map w).1)
  unfolding try_exit
  try_exit-Leaves w ok = elim (Bool-cases (exit.0 == 0)) [
    | inl e ↦ rw e (record { w = w; got = ok; exited = ground arith; total_is = refl })
    | inr e ↦
        rw e (elim (Bool-cases (exit.0 == 2)) [ inl e' ↦ rw e' tt | inr e' ↦ rw e' (ground arith) ])
  ]
    where
      exit : ℕ × S.World
      exit = S.exit_boot_services (S.get_memory_map w).0.key (S.get_memory_map w).1

  round-Leaves : (w : S.World) → HasSizes S → Leaves (round S w)
  unfolding round
  round-Leaves w sizes =
      let sized = sizes.sized w in
      elim (Bool-cases (is_error map.status || map.descriptor_size == 0)) [
        | inl e ↦ rw e (ground arith)
        | inr e ↦ rw e (try_exit-Leaves w (ground arith))
      ]
    where
      map : MemoryMap
      map = (S.get_memory_map w).0

  go_on-Leaves :
      (r : Outcome × S.World) (rest : Option (Outcome × S.World))
      → Leaves r
      → LeavesIfAny rest
      → LeavesIfAny (go_on S r rest)
  unfolding go_on
  go_on-Leaves (failed status, w) rest h k = h
  go_on-Leaves (left total, w) rest h k = h
  go_on-Leaves (again, w) rest h k = k

  rounds-Leaves : (fuel : ℕ) (w : S.World) → HasSizes S → LeavesIfAny (rounds S fuel w)
  unfolding rounds
  rounds-Leaves zero w sizes = tt
  rounds-Leaves (suc fuel) w sizes =
      go_on-Leaves (round S w) _ (round-Leaves w sizes) (rounds-Leaves fuel (round S w).1 sizes)

  -- On firmware whose maps have descriptors of some size: where efi_leave_boot_services returns
  -- EFI_SUCCESS, the boot services were left with the key of the map read just before, whose total is
  -- the one stored; any other status that it returns is an error.
  pub leave_boot_services-Leaves :
      (ready : Bool) (fuel : ℕ) (w : S.World)
      → HasSizes S
      → LeavesIfAny (leave_boot_services S ready fuel w)
  unfolding leave_boot_services
  leave_boot_services-Leaves false fuel w sizes = omega arith
  leave_boot_services-Leaves true fuel w sizes = rounds-Leaves fuel w sizes
