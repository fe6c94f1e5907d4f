-- ===== src/Accounts/Invariant.antt =====
-- Every call of accounts.c keeps the table valid.
use existent_os.Prelude.{
  ℕ, ◌≤◌, ◌<◌, ◌≡◌, refl, sym, ◌∙◌, Bool, true, false, ◌||◌, List, Option, none, some, arith, ltb,
  length, All, All-set, All-append, length-set,
}
use mathlib.Core.Path.{subst}
use existent_os.Prelude.Int.{pos, is_negative, to_ℕ}
use existent_os.Prelude.Scan.{first_index, first_index-IsFirst}
use existent_os.CString.{text}
use existent_os.CString.Laws.{length-copy_upto, All-copy_upto}
use existent_os.Firmware.{Firmware}
use existent_os.Accounts.Image.{IsSized, max_users, text_max}
use existent_os.Accounts.State.{
  State, account, credentials_match, sign_in, login, append_account, may_add, may_change,
  replace_password, copy, add, change_password,
}
use existent_os.Accounts.Valid.{users, directory, IsValid, IsChars}
use existent_os.Accounts.Requests.{
  account-IsSized, may_add-IsAccepted, users-append_account, users-replace_password,
  may_change_needs, pos_of_current,
}
use existent_os.Accounts.Refine.{add-outcome, change_password-outcome, outcome}
use existent_os.Accounts.Names.{
  find_user-none, taken-none, Distinct-append, Named-set_password, Distinct-set_password,
}
use existent_os.Accounts.Directory.{is_word, Distinct, Named}

sign_in-IsValid :
    (o : Option ℕ) {s : State}
    → IsValid s
    → ((i : ℕ) → o ≡ some i → i < s.account_count)
    → IsValid (sign_in o s).1
unfolding sign_in account
sign_in-IsValid none v h = v
sign_in-IsValid (some i) v h = record {
  table = v.table;
  sized = v.sized;
  room = v.room;
  signed = ground (arith, h i refl);
  named = v.named;
  distinct = v.distinct;
}

-- accounts_login keeps the table valid.
pub login-IsValid :
    (name password : List ℕ) {s : State} → IsValid s → IsValid (login name password s).1
unfolding login
login-IsValid name password {s} v =
    sign_in-IsValid (first_index (credentials_match s name password) s.account_count 0) v
      λ i e. let found = first_index-IsFirst _ s.account_count 0 i e in omega (arith, found.below)

pub copy-IsChars : (to from : List ℕ) → IsChars to → IsChars from → IsChars (copy to from)
unfolding copy
copy-IsChars to from a b = All-copy_upto (λ c. c < 65536) text_max to from (omega arith) a b

pub length-copy : (to from : List ℕ) → length (copy to from) ≡ length to
unfolding copy
length-copy to from = length-copy_upto text_max to from

module _ (name password : List ℕ) (s : State) where
  append_account-table : length (append_account name password s).accounts ≡ length s.accounts
  unfolding append_account
  append_account-table = length-set s.accounts s.account_count _

  append_account-room :
      s.account_count < max_users → (append_account name password s).account_count ≤ max_users
  unfolding append_account
  append_account-room h = omega arith

  append_account-signed :
      (is_negative s.current_account || ltb (to_ℕ s.current_account) s.account_count) ≡ true
      → let s' = append_account name password s in
        (is_negative s'.current_account || ltb (to_ℕ s'.current_account) s'.account_count) ≡ true
  unfolding append_account
  append_account-signed h = ground arith

module _ (name password : List ℕ) (name_chars : IsChars name)
    (password_chars : IsChars password) where
  append_account-IsSized :
      {s : State} → IsValid s → All IsSized (append_account name password s).accounts
  unfolding append_account
  append_account-IsSized {s} v =
      let z = account-IsSized v s.account_count in
      All-set IsSized s.accounts s.account_count _ v.sized (record {
        name_cells = length-copy _ name ∙ z.name_cells;
        password_cells = length-copy _ password ∙ z.password_cells;
        name_chars = copy-IsChars _ name z.name_chars name_chars;
        password_chars = copy-IsChars _ password z.password_chars password_chars;
        admin_int = omega arith;
      })

  pub append_account-IsValid :
      {s : State}
      → IsValid s
      → may_add name password s ≡ true
      → IsValid (append_account name password s)
  append_account-IsValid {s} v h =
      let ok = may_add-IsAccepted name password v h in
      let grown = users-append_account name password v ok in
      record {
        table = append_account-table name password s ∙ v.table;
        sized = append_account-IsSized v;
        room = append_account-room name password s ok.spare;
        signed = append_account-signed name password s v.signed;
        named =
            subst Named (sym grown)
              (All-append (λ u. is_word u.name ≡ true) (users s) _ v.named (ok.name_word, tt));
        distinct = subst Distinct (sym grown) (
            Distinct-append (users s) _ v.distinct
              (find_user-none _ (users s) 0 (taken-none (text name) (directory s) ok.free)));
      }

module _ (new_password : List ℕ) (chars : IsChars new_password) where
  replace_password-IsSized :
      {s : State} → IsValid s → All IsSized (replace_password new_password s).accounts
  unfolding replace_password
  replace_password-IsSized {s} v =
      let z = account-IsSized v (to_ℕ s.current_account) in
      All-set IsSized s.accounts (to_ℕ s.current_account) _ v.sized (record {
        name_cells = z.name_cells;
        password_cells = length-copy _ new_password ∙ z.password_cells;
        name_chars = z.name_chars;
        password_chars = copy-IsChars _ new_password z.password_chars chars;
        admin_int = z.admin_int;
      })

  pub replace_password-IsValid :
      {s : State} (k : ℕ)
      → IsValid s
      → s.current_account ≡ pos k
      → is_word (text new_password) ≡ true
      → IsValid (replace_password new_password s)
  unfolding replace_password
  replace_password-IsValid {s} k v e word =
      let changed = users-replace_password new_password k v e word in
      record {
        table = length-set s.accounts (to_ℕ s.current_account) _ ∙ v.table;
        sized = replace_password-IsSized v;
        room = v.room;
        signed = v.signed;
        named =
            subst Named (sym changed) (Named-set_password (users s) k (text new_password) v.named);
        distinct =
            subst Distinct (sym changed)
              (Distinct-set_password (users s) k (text new_password) v.distinct);
      }

module _ (F : Firmware) (ready : Bool) where
  outcome-IsValid :
      (allowed : Bool) (s' : State) {s : State} (w : F.World)
      → IsValid s
      → (allowed ≡ true → IsValid s')
      → IsValid (outcome F ready allowed s' s w).1
  outcome-IsValid true s' w v h = h refl
  outcome-IsValid false s' w v h = v

  -- accounts_add keeps the table valid.
  pub add-IsValid :
      (name password : List ℕ) {s : State} (w : F.World)
      → IsChars name
      → IsChars password
      → IsValid s
      → IsValid (add F ready name password s w).1
  add-IsValid name password {s} w cn cp v = rw (add-outcome F ready name password s w) (
      outcome-IsValid (may_add name password s) (append_account name password s) w v
        (append_account-IsValid name password cn cp v))

  -- accounts_change_password keeps the table valid.
  pub change_password-IsValid :
      (old_password new_password : List ℕ) {s : State} (w : F.World)
      → IsChars new_password
      → IsValid s
      → IsValid (change_password F ready old_password new_password s w).1
  change_password-IsValid old_password new_password {s} w cp v =
      rw (change_password-outcome F ready old_password new_password s w) (
        outcome-IsValid (may_change old_password new_password s) (replace_password new_password s) w
          v
          λ h.
            let needs = may_change_needs old_password new_password s h in
            let (k, e) = pos_of_current s.current_account needs.1 in
            replace_password-IsValid new_password cp k v e needs.0)
