-- ===== src/Prelude/Bytes.antt =====
-- Little-endian numbers in a buffer.
use Prim.Native.Nat.{ℕ, zero, suc, ◌+◌, ◌*◌}
use mathlib.Core.List.{List, [], ◌∷◌}
use existent_os.Prelude.Lists.{get_or, drop}

-- The number in the first four bytes.
unfoldable pub u32_at : List ℕ → ℕ
u32_at bs =
    get_or bs 0 0 + (256 * get_or bs 1 0 + (65536 * get_or bs 2 0 + 16777216 * get_or bs 3 0))

-- The first `n` CHAR16 values.
unfoldable pub chars_at : ℕ → List ℕ → List ℕ
chars_at zero bs = []
chars_at (suc n) bs = (get_or bs 0 0 + 256 * get_or bs 1 0) ∷ chars_at n (drop 2 bs)

-- The number in the first eight bytes.
unfoldable pub u64_at : List ℕ → ℕ
u64_at bs = u32_at bs + 4294967296 * u32_at (drop 4 bs)
