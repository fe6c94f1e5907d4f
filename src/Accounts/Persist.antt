-- ===== src/Accounts/Persist.antt =====
-- What survives a restart: accounts_save, then accounts_init.
use existent_os.Prelude.{ℕ, ◌<◌, ◌≡◌, Bool, true, arith}
use existent_os.Prelude.Int.{negsuc}
use existent_os.Firmware.{Firmware, mode_read, mode_create}
use existent_os.Firmware.OpenFile.{open_file, IsDurable}
use existent_os.Accounts.Image.{IsStore, image, length-image, store_at-image, store_bytes}
use existent_os.Accounts.State.{
  State, users_path, reset, store_of, is_store, adopt, accounts_open, write_store, save_to, save,
  load_from, load, init,
}
use existent_os.Accounts.Valid.{IsValid}

store_of-IsStore : {s : State} → IsValid s → IsStore (store_of s)
unfolding store_of
store_of-IsStore v = record {
  magic_int = omega arith;
  count_int = omega arith;
  full = v.table;
  sized = v.sized;
}

-- The image of a valid table with at least one user passes the guard of accounts_load.
is_store-image :
    {s : State} → IsValid s → 0 < s.account_count → is_store 0 (image (store_of s)) ≡ true
unfolding is_store store_of
is_store-image {s} v h =
    rw
      (
        length-image (store_of s) (store_of-IsStore v),
        store_at-image (store_of s) (store_of-IsStore v),
      )
      (ground arith)

module _ (F : Firmware) (ready : Bool) where
  -- What a save that succeeded has done.
  record Saved (s : State) (w w' : F.World) : Type 0 where
    file : ℕ
    w₁ : F.World
    w₂ : F.World
    w₃ : F.World
    opened : open_file F ready users_path mode_create 0 w ≡ (true, file, w₁)
    placed : F.set_position file 0 w₁ ≡ (0, w₂)
    written : F.write file (image (store_of s)) w₂ ≡ (0, store_bytes, w₃)
    closed : w' ≡ F.close file (F.flush file w₃)

  save-Saved : (s : State) (w w' : F.World) → save F ready s w ≡ (true, w') → Saved s w w'
  unfolding save accounts_open save_to write_store
  save-Saved s w w' h =
      let file = (open_file F ready users_path mode_create 0 w).1 in
      let w₁ = (open_file F ready users_path mode_create 0 w).2 in
      let w₂ = (F.set_position file 0 w₁).1 in
      record {
        file = file;
        w₁ = w₁;
        w₂ = w₂;
        w₃ = (F.write file (image (store_of s)) w₂).2;
        opened = ground arith;
        placed = ground arith;
        written = ground arith;
        closed = ground arith;
      }

  adopt-image :
      {s : State} (t : State)
      → IsValid s
      → adopt (image (store_of s)) t
        ≡ record t { accounts = s.accounts; account_count = s.account_count }
  unfolding adopt store_of
  adopt-image {s} t v = rw (store_at-image (store_of s) (store_of-IsStore v))

  load-read :
      {s : State} (t : State) (w : F.World) (again : ℕ) (w₅ w₆ : F.World)
      → IsValid s
      → 0 < s.account_count
      → open_file F ready users_path mode_read 0 w ≡ (true, again, w₅)
      → F.read again store_bytes w₅ ≡ (0, image (store_of s), w₆)
      → (load F ready t w).0 ≡ record t { accounts = s.accounts; account_count = s.account_count }
  unfolding load accounts_open load_from
  load-read {s} t w again w₅ w₆ v h opened got =
      rw (opened, got, is_store-image v h) (adopt-image t v)

  -- Where the firmware keeps what is written, a table that accounts_save wrote is the table that
  -- accounts_init finds at the next start, cell by cell, and nobody is signed in.
  pub init-save :
      {s : State} (t : State) (w w' : F.World)
      → IsDurable F ready
      → IsValid s
      → 0 < s.account_count
      → save F ready s w ≡ (true, w')
      → (init F ready t w').0 ≡ record s { current_account = negsuc 0 }
  unfolding init reset
  init-save {s} t w w' durable v h saved =
      let done = save-Saved s w w' saved in
      let (again, w₅, w₆, opened, got) =
        durable.reads_back users_path mode_create 0 done.file (image (store_of s)) w done.w₁ done.w₂
          done.w₃ done.opened done.placed
          (rw (length-image (store_of s) (store_of-IsStore v)) done.written) in
      load-read (reset t) w' again w₅ w₆ v h (rw done.closed opened)
        (rw (length-image (store_of s) (store_of-IsStore v)) at got)
