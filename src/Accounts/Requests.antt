-- ===== src/Accounts/Requests.antt =====
-- What the guards and the writes of accounts.c are for a reader of the directory.
use mathlib.Core.Path.{fun_ext}
use existent_os.Prelude.{
  ℕ, suc, ◌+◌, ◌≤◌, ◌<◌, ◌≡◌, ◌≢◌, refl, sym, ap, ap₂, ◌∙◌, true, false, not, List, [], ◌∷◌, ◌++◌,
  arith, ltb, ◌==◌, length, get_or, set, All-get_or, get_or-set_self, get_or-set_ne,
}
use existent_os.Prelude.Int.{ℤ, pos, negsuc, is_negative, to_ℕ}
use existent_os.Prelude.Scan.{
  first_index, segment, length-segment, get_or-segment, segment-suc, segment_eq, segment-set,
}
use existent_os.CString.{text, equal}
use existent_os.Accounts.Image.{IsSized, blank, max_users}
use existent_os.Accounts.State.{
  State, account, is_admin, append_account, name_taken, may_add, may_change, replace_password,
}
use existent_os.Accounts.Valid.{
  view, users, directory, IsValid, equal-eq-same, valid_lem, text-copy, first_index-find_user,
}
use existent_os.Accounts.Directory as Spec
use existent_os.Accounts.Directory.{User, Directory, same, is_word, find_user, stranger}

pub length-users : (s : State) → length (users s) ≡ s.account_count
length-users s = length-segment _ s.account_count 0

-- The user at an index in range is the view of that entry.
pub user-directory :
    (s : State) (i : ℕ) → i < s.account_count → get_or (users s) i stranger ≡ view (account s i)
user-directory s i h =
    get_or-segment (λ k. view (account s k)) s.account_count 0 i stranger h
    ∙ ap (λ (k : ℕ). view (account s k)) (omega arith)

is_admin-directory : {s : State} → IsValid s → is_admin s ≡ Spec.is_admin (directory s)
unfolding is_admin
is_admin-directory {s} v = ground (arith, user-directory s (to_ℕ s.current_account))

name_taken-directory :
    (name : List ℕ) (s : State) → name_taken s name ≡ Spec.taken (text name) (directory s)
unfolding name_taken Spec.taken
name_taken-directory name s = rw (search_lem, name_taken) (ground arith)
  where
    search_lem :
        first_index (λ i. equal (account s i).name name) s.account_count 0
        ≡ find_user (Spec.named (text name)) (users s) 0
    search_lem =
        ap (λ test. first_index test s.account_count 0)
          (fun_ext (λ i. equal-eq-same (account s i).name name))
        ∙ sym (first_index-find_user _ (λ i. view (account s i)) s.account_count 0)

pub may_add-directory :
    (name password : List ℕ) {s : State}
    → IsValid s
    → may_add name password s ≡ Spec.may_add (text name) (text password) (directory s)
unfolding may_add Spec.may_add
may_add-directory name password {s} v = rw (
  is_admin-directory v,
  valid_lem name,
  valid_lem password,
  name_taken-directory name s,
  length-users s,
)

pub may_change-directory :
    (old_password new_password : List ℕ) {s : State}
    → IsValid s
    → may_change old_password new_password s
      ≡ Spec.may_change (text old_password) (text new_password) (directory s)
unfolding may_change Spec.may_change
may_change-directory old_password new_password {s} v =
    rw
      (
        valid_lem new_password,
        equal-eq-same (account s (to_ℕ s.current_account)).password old_password,
      )
      (ground (arith, user-directory s (to_ℕ s.current_account)))

pub account-IsSized : {s : State} → IsValid s → (i : ℕ) → IsSized (account s i)
unfolding account
account-IsSized {s} v i = All-get_or IsSized s.accounts i blank v.sized (omega arith)

-- The words of an accepted request.
pub record IsAccepted (name password : List ℕ) (s : State) : Type 0 where
  pub name_word : is_word (text name) ≡ true
  pub password_word : is_word (text password) ≡ true
  pub spare : s.account_count < max_users
  pub free : Spec.taken (text name) (directory s) ≡ false

pub may_add-IsAccepted :
    (name password : List ℕ) {s : State}
    → IsValid s
    → may_add name password s ≡ true
    → IsAccepted name password s
unfolding may_add
may_add-IsAccepted name password {s} v h =
    ground (arith, valid_lem name, valid_lem password, name_taken-directory name s)

pub users-append_account :
    (name password : List ℕ) {s : State}
    → IsValid s
    → IsAccepted name password s
    → users (append_account name password s)
      ≡ users s ++ (record { name = text name; password = text password; admin = false } ∷ [])
unfolding append_account account
users-append_account name password {s} v ok =
    ap (λ (n : ℕ). segment entry n 0) {y = suc s.account_count} (omega arith)
    ∙ segment-suc entry s.account_count 0
    ∙ ap₂ (λ us u. us ++ (u ∷ [])) old fresh
  where
    sized : IsSized (account s s.account_count)
    sized = account-IsSized v s.account_count

    entry : ℕ → User
    entry i = view (account (append_account name password s) i)

    old : segment entry s.account_count 0 ≡ users s
    old =
        segment_eq entry (λ i. view (account s i)) s.account_count 0
          (λ k _ below. ap view (get_or-set_ne s.accounts s.account_count k _ blank (omega arith)))

    fresh :
        entry (0 + s.account_count)
        ≡ record { name = text name; password = text password; admin = false }
    fresh =
        ap entry (omega arith)
        ∙ ap view (get_or-set_self s.accounts s.account_count _ blank (omega arith))
        ∙ λ i. record {
          name = text-copy (account s s.account_count).name name sized.name_cells ok.name_word i;
          password =
              text-copy (account s s.account_count).password password sized.password_cells
                ok.password_word i;
          admin = false;
        }

pub users-replace_password :
    (new_password : List ℕ) {s : State} (k : ℕ)
    → IsValid s
    → s.current_account ≡ pos k
    → is_word (text new_password) ≡ true
    → users (replace_password new_password s)
      ≡ set (users s) k (record (get_or (users s) k stranger) { password = text new_password })
unfolding replace_password account
users-replace_password new_password {s} k v e word =
    segment-set (λ i. view (account s i)) entry s.account_count 0 k other
    ∙ ap (set (users s) k) (ap entry (omega arith) ∙ changed)
  where
    below : k < s.account_count
    below = let h : ltb k s.account_count ≡ true = rw e at (v.signed) in ground arith

    index : to_ℕ s.current_account ≡ k
    index = ap to_ℕ e

    entry : ℕ → User
    entry i = view (account (replace_password new_password s) i)

    other : (j : ℕ) → 0 ≤ j → j < 0 + s.account_count → j ≢ 0 + k → entry j ≡ view (account s j)
    other j _ _ ne = ap view (
        get_or-set_ne s.accounts (to_ℕ s.current_account) j _ blank
          (λ q. ne (omega (arith, index, q))))

    changed : entry k ≡ record (get_or (users s) k stranger) { password = text new_password }
    changed =
        ap entry (sym index)
        ∙ ap view (
            get_or-set_self s.accounts (to_ℕ s.current_account) _ blank
              (omega (arith, index, below)))
        ∙ rw (index, user-directory s k below)
            λ i. record {
              name = text (account s k).name;
              password =
                  text-copy (account s k).password new_password (account-IsSized v k).password_cells
                    word i;
              admin = not ((account s k).admin == 0);
            }

pub pos_of_current : (c : ℤ) → is_negative c ≡ false → (k : ℕ) × (c ≡ pos k)
pos_of_current (pos k) h = (k, refl)
pos_of_current (negsuc k) h = absurd (cc)

-- An accepted change is of a signed-in user to a word.
pub may_change_needs :
    (old_password new_password : List ℕ) (s : State)
    → may_change old_password new_password s ≡ true
    → (is_word (text new_password) ≡ true) × (is_negative s.current_account ≡ false)
unfolding may_change
may_change_needs old_password new_password s h = ground (arith, valid_lem new_password)
