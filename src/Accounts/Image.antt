-- ===== src/Accounts/Image.antt =====
-- `account_t`, `account_store_t` and the bytes of the latter, as the x86-64 ABI lays them out:
-- what accounts_save writes and accounts_load reads back.
use existent_os.Prelude.{
  ℕ, zero, suc, ◌+◌, ◌*◌, ◌/◌, ◌%◌, ◌^◌, ◌<◌, ◌≡◌, refl, List, [], ◌∷◌, ◌++◌, arith, length, drop,
  All, length-append, drop-append, replicate, ap,
}
use mathlib.Core.List.{append_assoc}
use existent_os.Prelude.Bytes.{u32_at, chars_at}

abbrev pub text_max : ℕ
text_max = 31

abbrev pub max_users : ℕ
max_users = 8

-- `name` and `password` are arrays of 32 cells. `admin` is the 32-bit pattern of an int.
pub record Account : Type 0 where
  pub name : List ℕ
  pub password : List ℕ
  pub admin : ℕ

pub record AccountStore : Type 0 where
  pub magic : ℕ
  pub count : ℕ
  pub entries : List Account

-- An account in static storage before any write.
abbrev pub blank : Account
blank = record { name = replicate 32 0; password = replicate 32 0; admin = 0 }

abbrev pub store_magic : ℕ
store_magic = 0x46555352

abbrev pub account_bytes : ℕ
account_bytes = 132

-- `sizeof(account_store_t)`
abbrev pub store_bytes : ℕ
store_bytes = 8 + max_users * account_bytes

u32_bytes : ℕ → List ℕ
u32_bytes n = n % 256 ∷ n / 256 % 256 ∷ n / 65536 % 256 ∷ n / 16777216 % 256 ∷ []

chars_bytes : List ℕ → List ℕ
chars_bytes [] = []
chars_bytes (c ∷ s) = c % 256 ∷ c / 256 % 256 ∷ chars_bytes s

account_image : Account → List ℕ
account_image a = chars_bytes a.name ++ (chars_bytes a.password ++ u32_bytes a.admin)

entries_image : List Account → List ℕ
entries_image [] = []
entries_image (a ∷ as') = account_image a ++ entries_image as'

unfoldable pub image : AccountStore → List ℕ
unfolding u32_bytes chars_bytes account_image entries_image
image s = u32_bytes s.magic ++ (u32_bytes s.count ++ entries_image s.entries)

unfoldable pub account_at : List ℕ → Account
account_at bs = record {
  name = chars_at 32 bs;
  password = chars_at 32 (drop 64 bs);
  admin = u32_at (drop 128 bs);
}

unfoldable pub entries_at : ℕ → List ℕ → List Account
entries_at zero bs = []
entries_at (suc n) bs = account_at bs ∷ entries_at n (drop account_bytes bs)

-- The bytes of a read, taken as an account_store_t.
unfoldable pub store_at : List ℕ → AccountStore
unfolding u32_at chars_at account_at entries_at
store_at bs = record {
  magic = u32_at bs;
  count = u32_at (drop 4 bs);
  entries = entries_at max_users (drop 8 bs);
}

-- An account whose arrays have their declared size and whose cells fit their types.
pub record IsSized (a : Account) : Type 0 where
  pub name_cells : length a.name ≡ 32
  pub password_cells : length a.password ≡ 32
  pub name_chars : All (λ c. c < 65536) a.name
  pub password_chars : All (λ c. c < 65536) a.password
  pub admin_int : a.admin < 2 ^ 32

u32_at-u32_bytes : (n : ℕ) (rest : List ℕ) → n < 2 ^ 32 → u32_at (u32_bytes n ++ rest) ≡ n
unfolding u32_at u32_bytes
u32_at-u32_bytes n rest h = omega arith

chars_at-chars_bytes :
    (n : ℕ) (s rest : List ℕ)
    → length s ≡ n
    → All (λ c. c < 65536) s
    → chars_at n (chars_bytes s ++ rest) ≡ s
unfolding chars_at chars_bytes
chars_at-chars_bytes zero [] rest h k = refl
chars_at-chars_bytes zero (c ∷ s) rest h k = absurd (omega arith)
chars_at-chars_bytes (suc n) [] rest h k = absurd (omega arith)
chars_at-chars_bytes (suc n) (c ∷ s) rest h k =
    ground (arith, chars_at-chars_bytes n s rest (omega arith) k.1)

length-chars_bytes : (s : List ℕ) → length (chars_bytes s) ≡ 2 * length s
unfolding chars_bytes
length-chars_bytes [] = refl
length-chars_bytes (c ∷ s) = omega (arith, length-chars_bytes s)

length-account_image : (a : Account) → IsSized a → length (account_image a) ≡ account_bytes
unfolding account_image u32_bytes
length-account_image a z = omega (
  arith,
  length-append (chars_bytes a.name) (chars_bytes a.password ++ u32_bytes a.admin),
  length-append (chars_bytes a.password) (u32_bytes a.admin),
  length-chars_bytes a.name,
  length-chars_bytes a.password,
)

account_at-image :
    (a : Account) (rest : List ℕ) → IsSized a → account_at (account_image a ++ rest) ≡ a
unfolding account_at account_image
account_at-image a rest z =
    let n = chars_bytes a.name in
    let p = chars_bytes a.password in
    let d = u32_bytes a.admin in
    let front : (n ++ (p ++ d)) ++ rest ≡ n ++ (p ++ (d ++ rest)) = simp append_assoc in
    let middle : n ++ (p ++ (d ++ rest)) ≡ (n ++ p) ++ (d ++ rest) = simp append_assoc in
    let size : length (n ++ p) ≡ 128 =
      omega (arith, length-append n p, length-chars_bytes a.name, length-chars_bytes a.password) in
    let name : chars_at 32 ((n ++ (p ++ d)) ++ rest) ≡ a.name =
      rw front (chars_at-chars_bytes 32 a.name (p ++ (d ++ rest)) z.name_cells z.name_chars) in
    let password : chars_at 32 (drop 64 ((n ++ (p ++ d)) ++ rest)) ≡ a.password =
      rw (front, drop-append 64 n (p ++ (d ++ rest)) (omega (arith, length-chars_bytes a.name)))
        (chars_at-chars_bytes 32 a.password (d ++ rest) z.password_cells z.password_chars) in
    let admin : u32_at (drop 128 ((n ++ (p ++ d)) ++ rest)) ≡ a.admin =
      rw (front, middle, drop-append 128 (n ++ p) (d ++ rest) size)
        (u32_at-u32_bytes a.admin rest z.admin_int) in
    λ i. record { name = name i; password = password i; admin = admin i }

length-entries_image :
    (xs : List Account) → All IsSized xs → length (entries_image xs) ≡ account_bytes * length xs
unfolding entries_image
length-entries_image [] h = refl
length-entries_image (a ∷ xs) h = omega (
  arith,
  length-append (account_image a) (entries_image xs),
  length-account_image a h.0,
  length-entries_image xs h.1,
)

entries_at-image :
    (n : ℕ) (xs : List Account)
    → length xs ≡ n
    → All IsSized xs
    → entries_at n (entries_image xs) ≡ xs
unfolding entries_at entries_image
entries_at-image zero [] h z = refl
entries_at-image zero (a ∷ xs) h z = absurd (omega arith)
entries_at-image (suc n) [] h z = absurd (omega arith)
entries_at-image (suc n) (a ∷ xs) h z =
    rw
      (
        account_at-image a (entries_image xs) z.0,
        drop-append account_bytes (account_image a) (entries_image xs) (length-account_image a z.0),
      )
      (ap (λ t. a ∷ t) (entries_at-image n xs (omega arith) z.1))

-- A store whose table has its declared size.
pub record IsStore (s : AccountStore) : Type 0 where
  pub magic_int : s.magic < 2 ^ 32
  pub count_int : s.count < 2 ^ 32
  pub full : length s.entries ≡ max_users
  pub sized : All IsSized s.entries

-- An image has the size that accounts_load and accounts_save ask for.
pub length-image : (s : AccountStore) → IsStore s → length (image s) ≡ store_bytes
unfolding image
length-image s z = omega (arith, length-entries_image s.entries z.sized)

-- Reading back the bytes of a store gives the store.
pub store_at-image : (s : AccountStore) → IsStore s → store_at (image s) ≡ s
unfolding image store_at
store_at-image s z =
    let magic : u32_at (image s) ≡ s.magic =
      u32_at-u32_bytes s.magic (u32_bytes s.count ++ entries_image s.entries) z.magic_int in
    let count : u32_at (drop 4 (image s)) ≡ s.count =
      u32_at-u32_bytes s.count (entries_image s.entries) z.count_int in
    let entries = entries_at-image max_users s.entries z.full z.sized in
    λ i. record { magic = magic i; count = count i; entries = entries i }
