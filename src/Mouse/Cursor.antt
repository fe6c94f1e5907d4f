-- ===== src/Mouse/Cursor.antt =====
-- The picture of the cursor in OSC/kernel/drivers/mouse.c.
use existent_os.Prelude.{ℕ, ◌*◌, ◌≤◌, ◌≡◌, refl, List, [], ◌∷◌, ◌++◌, length, replicate, arith, All}

abbrev pub cursor_size : ℕ
cursor_size = 16

-- The static array mouse_cursor_bitmap, row by row.
abbrev pub cursor_bitmap : List (List ℕ)
cursor_bitmap =
    replicate 16 0
    ∷ replicate 16 0
    ∷ replicate 16 0
    ∷ replicate 16 0
    ∷ replicate 16 0
    ∷ replicate 16 0
    ∷ replicate 16 0
    ∷ (0 ∷ 0 ∷ 0 ∷ 0 ∷ 0 ∷ 0 ∷ 1 ∷ 1 ∷ 1 ∷ 1 ∷ 1 ∷ 0 ∷ 0 ∷ 0 ∷ 0 ∷ 0 ∷ [])
    ∷ (0 ∷ 0 ∷ 0 ∷ 0 ∷ 0 ∷ 1 ∷ 1 ∷ 1 ∷ 1 ∷ 1 ∷ 1 ∷ 1 ∷ 0 ∷ 0 ∷ 0 ∷ 0 ∷ [])
    ∷ (0 ∷ 0 ∷ 0 ∷ 0 ∷ 1 ∷ 1 ∷ 1 ∷ 1 ∷ 1 ∷ 1 ∷ 1 ∷ 1 ∷ 1 ∷ 0 ∷ 0 ∷ 0 ∷ [])
    ∷ (0 ∷ 0 ∷ 0 ∷ 1 ∷ 1 ∷ 1 ∷ 1 ∷ 1 ∷ 1 ∷ 1 ∷ 1 ∷ 1 ∷ 1 ∷ 1 ∷ 0 ∷ 0 ∷ [])
    ∷ (0 ∷ 0 ∷ 1 ∷ 1 ∷ 1 ∷ 1 ∷ 1 ∷ 1 ∷ 1 ∷ 1 ∷ 1 ∷ 1 ∷ 1 ∷ 1 ∷ 1 ∷ 0 ∷ [])
    ∷ (0 ∷ 0 ∷ 0 ∷ 1 ∷ 1 ∷ 1 ∷ 1 ∷ 1 ∷ 1 ∷ 1 ∷ 1 ∷ 1 ∷ 1 ∷ 1 ∷ 0 ∷ 0 ∷ [])
    ∷ (0 ∷ 0 ∷ 0 ∷ 0 ∷ 1 ∷ 1 ∷ 1 ∷ 1 ∷ 1 ∷ 1 ∷ 1 ∷ 1 ∷ 1 ∷ 0 ∷ 0 ∷ 0 ∷ [])
    ∷ (0 ∷ 0 ∷ 0 ∷ 0 ∷ 0 ∷ 1 ∷ 1 ∷ 1 ∷ 1 ∷ 1 ∷ 1 ∷ 1 ∷ 0 ∷ 0 ∷ 0 ∷ 0 ∷ [])
    ∷ (0 ∷ 0 ∷ 0 ∷ 0 ∷ 0 ∷ 0 ∷ 1 ∷ 1 ∷ 1 ∷ 1 ∷ 1 ∷ 0 ∷ 0 ∷ 0 ∷ 0 ∷ 0 ∷ [])
    ∷ []

abbrev flat : List (List ℕ) → List ℕ
flat [] = []
flat (row ∷ rows) = row ++ flat rows

-- mouse_cursor_pixels: the cells from the first one on.
unfoldable pub cursor_pixels : List ℕ
cursor_pixels = flat cursor_bitmap

unfoldable pub cursor_width : ℕ
cursor_width = cursor_size

unfoldable pub cursor_height : ℕ
cursor_height = cursor_size

-- The pixels are as many as the width and the height say, and each is 0 or 1.
pub length-cursor_pixels :
    (length cursor_pixels ≡ cursor_width * cursor_height) × All (λ c. c ≤ 1) cursor_pixels
unfolding cursor_pixels cursor_width cursor_height
length-cursor_pixels = (refl, omega arith)
