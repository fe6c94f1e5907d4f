-- ===== src/Accounts/Valid.antt =====
-- The invariant of the user table, and the list of users that the table holds.
use existent_os.Prelude.{
  ℕ, zero, suc, ◌+◌, ◌≤◌, ◌<◌, ◌≡◌, refl, ◌∙◌, Bool, true, false, not, ◌&&◌, ◌||◌, List, [], ◌∷◌,
  none, some, arith, ltb, leb, ◌==◌, if◌then◌else◌, length, All, sym, take_all,
}
use existent_os.Prelude.Int.{is_negative, to_ℕ}
use existent_os.Prelude.Scan.{first_index, segment}
use existent_os.CString.{text, equal}
use existent_os.CString.Laws.{equal_iff, text-copy_upto}
use existent_os.Accounts.Image.{Account, IsSized, max_users}
use existent_os.Accounts.State.{State, account, valid_from, valid, copy}
use existent_os.Accounts.Directory.{
  User, Directory, same, same_iff, is_word, no_space, find_user, Distinct, Named,
}

-- What an entry stands for.
abbrev pub view : Account → User
view a = record { name = text a.name; password = text a.password; admin = not (a.admin == 0) }

abbrev pub users : State → List User
users s = segment (λ i. view (account s i)) s.account_count 0

abbrev pub directory : State → Directory
directory s = record {
  users = users s;
  current = if is_negative s.current_account then none else some (to_ℕ s.current_account);
}

pub record IsValid (s : State) : Type 0 where
  pub table : length s.accounts ≡ max_users
  pub sized : All IsSized s.accounts
  pub room : s.account_count ≤ max_users
  pub signed :
      (is_negative s.current_account || ltb (to_ℕ s.current_account) s.account_count) ≡ true
  pub named : Named (users s)
  pub distinct : Distinct (users s)

-- The cells of a CHAR16 string.
abbrev pub IsChars : List ℕ → Type 0
IsChars = All (λ c. c < 65536)

Bool-eq : (a b : Bool) → (a ≡ true → b ≡ true) → (b ≡ true → a ≡ true) → a ≡ b
Bool-eq true true f g = refl
Bool-eq true false f g = sym (f refl)
Bool-eq false true f g = g refl
Bool-eq false false f g = refl

pub equal-eq-same : (a b : List ℕ) → equal a b ≡ same (text a) (text b)
equal-eq-same a b =
    Bool-eq _ _ (λ h. (same_iff (text a) (text b)).1 ((equal_iff a b).0 h))
      (λ h. (equal_iff a b).1 ((same_iff (text a) (text b)).0 h))

valid_from_lem :
    (n : ℕ) (s : List ℕ)
    → n ≤ 31
    → valid_from n s
      ≡ (not (n + length (text s) == 0) && leb (n + length (text s)) 31 && no_space (text s))
unfolding valid_from
valid_from_lem n [] h = ground arith
valid_from_lem n (c ∷ s) h = ground (arith, valid_from_lem (n + 1) s)

-- `valid` accepts the words.
pub valid_lem : (s : List ℕ) → valid s ≡ is_word (text s)
unfolding valid
valid_lem s = ground (arith, valid_from_lem 0 s)

-- A word is copied whole.
pub text-copy :
    (to from : List ℕ)
    → length to ≡ 32
    → is_word (text from) ≡ true
    → text (copy to from) ≡ text from
unfolding copy
text-copy to from size word =
    text-copy_upto 31 to from (omega arith) ∙ take_all 31 (text from) (ground arith)

pub first_index-find_user :
    (test : User → Bool) (f : ℕ → User) (n i : ℕ)
    → find_user test (segment f n i) i ≡ first_index (λ k. test (f k)) n i
unfolding find_user first_index
first_index-find_user test f zero i = refl
first_index-find_user test f (suc n) i = rw (first_index-find_user test f n (i + 1))
