-- ===== src/CString.antt =====
-- CHAR16 strings as the program handles them: arrays of cells, read up to a terminating zero.
-- A pointer is the list of the cells from it on; at the end of the list it reads a zero, so a
-- literal may leave out its terminator.
pub mod Laws
use Prim.Native.Char.{code}
use Prim.Native.String.{String}
use existent_os.Prelude.{
  ℕ, suc, Bool, true, not, ◌&&◌, ◌||◌, List, [], ◌∷◌, leb, ◌==◌, set, if◌then◌else◌,
}

-- A literal of the source.
abbrev pub chars : String → List ℕ
chars String.[] = []
chars (String.◌∷◌ c s) = code c ∷ chars s

-- The characters before the terminator.
abbrev pub text : List ℕ → List ℕ
text [] = []
text (c ∷ s) = if c == 0 then [] else c ∷ text s

-- `while (*a && *b && *a == *b) { ++a; ++b; } return *a == 0 && *b == 0;`
unfoldable pub equal : List ℕ → List ℕ → Bool
equal [] [] = true
equal [] (y ∷ b) = y == 0
equal (x ∷ a) [] = x == 0
equal (x ∷ a) (y ∷ b) =
    if not (x == 0) && (not (y == 0) && x == y) then equal a b else (x == 0 && y == 0)

-- `while (from[i] && i < max) { to[i] = from[i]; ++i; } to[i] = 0;` from `i` on, where the second
-- list holds the cells of `from` from index `i` on.
unfoldable pub copy_from : ℕ → ℕ → List ℕ → List ℕ → List ℕ
copy_from max i to [] = set to i 0
copy_from max i to (c ∷ from) =
    if c == 0 || leb max i then set to i 0 else copy_from max (suc i) (set to i c) from

unfoldable pub copy_upto : ℕ → List ℕ → List ℕ → List ℕ
unfolding copy_from
copy_upto max to from = copy_from max 0 to from
