-- ===== src/Accounts/Directory.antt =====
-- What kernel/drivers/accounts.c promises, with no arrays: an ordered list of users with distinct
-- names, and the index of the one that is signed in.
use existent_os.Prelude.{
  ℕ, ◌+◌, ◌≡◌, refl, ◌↔◌, Bool, true, false, not, ◌&&◌, List, [], ◌∷◌, ◌++◌, Option, none, some,
  arith, leb, ◌==◌, if◌then◌else◌, length, set, All, get_or,
}

pub record User : Type 0 where
  pub name : List ℕ
  pub password : List ℕ
  pub admin : Bool

abbrev pub stranger : User
stranger = record { name = []; password = []; admin = false }

pub record Directory : Type 0 where
  pub users : List User
  pub current : Option ℕ

unfoldable pub same : List ℕ → List ℕ → Bool
same [] [] = true
same [] (y ∷ b) = false
same (x ∷ a) [] = false
same (x ∷ a) (y ∷ b) = x == y && same a b

pub same_iff : (a b : List ℕ) → (same a b ≡ true) ↔ (a ≡ b)
unfolding same
same_iff [] [] = (λ _. refl, λ _. refl)
same_iff [] (y ∷ b) = ground arith
same_iff (x ∷ a) [] = ground arith
same_iff (x ∷ a) (y ∷ b) = ground (arith, same_iff a b)

abbrev pub no_space : List ℕ → Bool
no_space [] = true
no_space (c ∷ s) = not (c == b' ') && no_space s

-- One to 31 characters, none of them a space.
abbrev pub is_word : List ℕ → Bool
is_word s = not (length s == 0) && leb (length s) 31 && no_space s

-- The position of the first user that a test accepts, counted from `i`.
unfoldable pub find_user : (User → Bool) → List User → ℕ → Option ℕ
find_user test [] i = none
find_user test (u ∷ us) i = let rest = find_user test us (i + 1) in if test u then some i else rest

abbrev pub user : Directory → ℕ → User
user d i = get_or d.users i stranger

abbrev pub is_admin : Directory → Bool
is_admin d = elim d.current [ some i ↦ (user d i).admin | none ↦ false ]

abbrev pub named : List ℕ → User → Bool
named name u = same u.name name

unfoldable pub sign_in : Option ℕ → Directory → Bool × Directory
sign_in (some i) d = (true, record d { current = some i })
sign_in none d = (false, d)

unfoldable pub login : List ℕ → List ℕ → Directory → Bool × Directory
login name password d =
    sign_in (find_user (λ u. same u.name name && same u.password password) d.users 0) d

unfoldable pub taken : List ℕ → Directory → Bool
taken name d = elim (find_user (named name) d.users 0) [ some i ↦ true | none ↦ false ]

-- Adding is for an administrator, and takes a new name; there are at most 8 users.
unfoldable pub may_add : List ℕ → List ℕ → Directory → Bool
may_add name password d =
    is_admin d
    && is_word name
    && is_word password
    && not (length d.users == 8)
    && not (taken name d)

unfoldable pub add : List ℕ → List ℕ → Directory → Directory
add name password d =
    if may_add name password d
    then record d {
      users = d.users ++ (record { name = name; password = password; admin = false } ∷ []);
    }
    else d

unfoldable pub may_change : List ℕ → List ℕ → Directory → Bool
may_change old_password new_password d = elim d.current [
  | some i ↦ same (user d i).password old_password && is_word new_password
  | none ↦ false
]

unfoldable pub set_password : List ℕ → Directory → Directory
set_password new_password d = elim d.current [
  | some i ↦ record d { users = set d.users i (record (user d i) { password = new_password }) }
  | none ↦ d
]

unfoldable pub change : List ℕ → List ℕ → Directory → Directory
change old_password new_password d =
    if may_change old_password new_password d then set_password new_password d else d

-- No two users have one name, and every name is a word.
abbrev pub Distinct : List User → Type 0
Distinct [] = Unit
Distinct (u ∷ us) = All (λ v. same u.name v.name ≡ false) us × Distinct us

abbrev pub Named : List User → Type 0
Named = All (λ u. is_word u.name ≡ true)
