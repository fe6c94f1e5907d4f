-- ===== src/Accounts/Names.antt =====
-- The names of a directory's users: they stay distinct words when a user is added under a free
-- name or changes the password.
use existent_os.Prelude.{
  ℕ, zero, suc, ◌+◌, ◌≡◌, Bool, true, false, List, [], ◌∷◌, ◌++◌, none, arith, get_or, set, All,
  All-append, inl, inr, Bool-cases,
}
use existent_os.Accounts.Directory.{
  User, Directory, same, is_word, find_user, taken, named, Distinct, Named, stranger,
}

pub find_user-none :
    (test : User → Bool) (us : List User) (i : ℕ)
    → find_user test us i ≡ none
    → All (λ u. test u ≡ false) us
unfolding find_user
find_user-none test [] i h = tt
find_user-none test (u ∷ us) i h = elim (Bool-cases (test u)) [
  | inl e ↦ absurd (ground arith)
  | inr e ↦ (e, find_user-none test us (i + 1) (ground arith))
]

pub taken-none :
    (name : List ℕ) (d : Directory) → taken name d ≡ false → find_user (named name) d.users 0 ≡ none
unfolding taken
taken-none name d h = ground arith

pub Distinct-append :
    (us : List User) (u : User)
    → Distinct us
    → All (λ v. named u.name v ≡ false) us
    → Distinct (us ++ (u ∷ []))
Distinct-append [] u d free = (tt, tt)
Distinct-append (v ∷ us) u d free = (
  All-append (λ x. same v.name x.name ≡ false) us (u ∷ []) d.0 (free.0, tt),
  Distinct-append us u d.1 free.1,
)

All-rename :
    (P : List ℕ → Type 0) (us : List User) (k : ℕ) (password : List ℕ)
    → All (λ u. P u.name) us
    → All (λ u. P u.name) (set us k (record (get_or us k stranger) { password = password }))
All-rename P [] k password h = tt
All-rename P (u ∷ us) zero password h = h
All-rename P (u ∷ us) (suc k) password h = (h.0, All-rename P us k password h.1)

pub Named-set_password :
    (us : List User) (k : ℕ) (password : List ℕ)
    → Named us
    → Named (set us k (record (get_or us k stranger) { password = password }))
Named-set_password us k password h = All-rename (λ name. is_word name ≡ true) us k password h

pub Distinct-set_password :
    (us : List User) (k : ℕ) (password : List ℕ)
    → Distinct us
    → Distinct (set us k (record (get_or us k stranger) { password = password }))
Distinct-set_password [] k password d = tt
Distinct-set_password (u ∷ us) zero password d = d
Distinct-set_password (u ∷ us) (suc k) password d = (
  All-rename (λ name. same u.name name ≡ false) us k password d.0,
  Distinct-set_password us k password d.1,
)
