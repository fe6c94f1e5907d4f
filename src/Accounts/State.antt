-- ===== src/Accounts/State.antt =====
-- The static variables of accounts.c and its functions. One that changes them returns the new
-- state; one that also calls the firmware returns the new world beside it.
use existent_os.Prelude.{
  ℕ, ◌+◌, Bool, true, false, not, ◌&&◌, ◌||◌, List, [], ◌∷◌, Option, none, some, ltb, leb, ◌==◌,
  if◌then◌else◌, get_or, set, replicate, length,
}
use existent_os.Prelude.Int.{ℤ, pos, negsuc, is_negative, to_ℕ}
use existent_os.Prelude.Scan.{first_index}
use existent_os.CString.{equal, copy_upto}
use existent_os.Firmware.{Firmware, is_error, mode_read, mode_create}
use existent_os.Firmware.OpenFile.{open_file}
use existent_os.Accounts.Image.{
  Account, AccountStore, blank, text_max, max_users, store_magic, store_bytes, image, store_at,
}

pub record State : Type 0 where
  pub accounts : List Account
  pub account_count : ℕ
  pub current_account : ℤ

-- The values that the static variables have when the program is loaded.
abbrev pub initial : State
initial = record {
  accounts = replicate max_users blank;
  account_count = 0;
  current_account = negsuc 0;
}

unfoldable pub account : State → ℕ → Account
account s i = get_or s.accounts i blank

-- `valid`, with `n` characters counted: no space, at most 31 characters, and at least one.
unfoldable pub valid_from : ℕ → List ℕ → Bool
valid_from n [] = not (n == 0)
valid_from n (c ∷ s) =
    let rest = valid_from (n + 1) s in
    if c == 0 then not (n == 0) else if c == b' ' || ltb text_max (n + 1) then false else rest

unfoldable pub valid : List ℕ → Bool
unfolding valid_from
valid s = valid_from 0 s

unfoldable pub copy : List ℕ → List ℕ → List ℕ
copy to from = copy_upto text_max to from

-- "nobody"
abbrev pub nobody : List ℕ
nobody = b'n' ∷ b'o' ∷ b'b' ∷ b'o' ∷ b'd' ∷ b'y' ∷ 0 ∷ []

-- "admin" and "fisix"
abbrev pub admin_name : List ℕ
admin_name = b'a' ∷ b'd' ∷ b'm' ∷ b'i' ∷ b'n' ∷ 0 ∷ []

abbrev pub admin_password : List ℕ
admin_password = b'f' ∷ b'i' ∷ b's' ∷ b'i' ∷ b'x' ∷ 0 ∷ []

-- "\fisix_users.db"
abbrev pub users_path : List ℕ
users_path =
    92 ∷ b'f' ∷ b'i' ∷ b's' ∷ b'i' ∷ b'x' ∷ b'_' ∷ b'u' ∷ b's' ∷ b'e' ∷ b'r' ∷ b's' ∷ b'.' ∷ b'd'
    ∷ b'b' ∷ 0 ∷ []

unfoldable pub is_admin : State → Bool
is_admin s =
    not (is_negative s.current_account) && not ((account s (to_ℕ s.current_account)).admin == 0)

unfoldable pub current_user : State → List ℕ
current_user s =
    if is_negative s.current_account then nobody else (account s (to_ℕ s.current_account)).name

unfoldable pub user_at : State → ℤ → Option (List ℕ)
user_at s index =
    if not (is_negative index) && ltb (to_ℕ index) s.account_count
    then some (account s (to_ℕ index)).name
    else none

unfoldable pub credentials_match : State → List ℕ → List ℕ → ℕ → Bool
credentials_match s name password i =
    equal (account s i).name name && equal (account s i).password password

-- `current_account = i; return 1;` or `return 0;`
unfoldable pub sign_in : Option ℕ → State → Bool × State
sign_in (some i) s = (true, record s { current_account = pos i })
sign_in none s = (false, s)

unfoldable pub login : List ℕ → List ℕ → State → Bool × State
login name password s =
    sign_in (first_index (credentials_match s name password) s.account_count 0) s

-- What accounts_add stores in the next entry.
unfoldable pub append_account : List ℕ → List ℕ → State → State
append_account name password s =
    let a = account s s.account_count in
    record s {
      accounts =
          set s.accounts s.account_count
            (record { name = copy a.name name; password = copy a.password password; admin = 0 });
      account_count = s.account_count + 1;
    }

unfoldable pub name_taken : State → List ℕ → Bool
name_taken s name = elim (first_index (λ i. equal (account s i).name name) s.account_count 0) [
  | some i ↦ true
  | none ↦ false
]

-- The guards of accounts_add: an administrator, two valid texts, room, and a new name.
unfoldable pub may_add : List ℕ → List ℕ → State → Bool
may_add name password s =
    is_admin s
    && valid name
    && valid password
    && not (s.account_count == max_users)
    && not (name_taken s name)

unfoldable pub may_change : List ℕ → List ℕ → State → Bool
may_change old_password new_password s =
    not (is_negative s.current_account)
    && equal (account s (to_ℕ s.current_account)).password old_password
    && valid new_password

unfoldable pub replace_password : List ℕ → State → State
replace_password new_password s =
    let a = account s (to_ℕ s.current_account) in
    record s {
      accounts =
          set s.accounts (to_ℕ s.current_account)
            (record a { password = copy a.password new_password });
    }

-- `accounts_init` before it looks for a file. Only the first entry is written.
unfoldable pub reset : State → State
reset s = record {
  accounts = set s.accounts 0 (record {
    name = copy (account s 0).name admin_name;
    password = copy (account s 0).password admin_password;
    admin = 1;
  });
  account_count = 1;
  current_account = negsuc 0;
}

unfoldable pub store_of : State → AccountStore
store_of s = record { magic = store_magic; count = s.account_count; entries = s.accounts }

-- The guard on what accounts_load has read.
unfoldable pub is_store : ℕ → List ℕ → Bool
is_store status bytes =
    not (is_error status)
    && length bytes == store_bytes
    && (store_at bytes).magic == store_magic
    && ltb 0 (store_at bytes).count
    && leb (store_at bytes).count max_users

unfoldable pub adopt : List ℕ → State → State
adopt bytes s = record s {
  account_count = (store_at bytes).count;
  accounts = (store_at bytes).entries;
}

-- `ready` is `gBS && gBS->LocateProtocol`.
module _ (F : Firmware) (ready : Bool) where
  open F use {World, read, write, set_position, flush, close}

  unfoldable pub accounts_open : ℕ → World → Bool × ℕ × World
  accounts_open mode w = open_file F ready users_path mode 0 w

  unfoldable pub write_store : State → ℕ → World → Bool × World
  write_store s file w =
      let (status, bytes, w') = write file (image (store_of s)) w in
      if is_error status || not (bytes == store_bytes)
      then (false, close file w')
      else (true, close file (flush file w'))

  unfoldable pub save_to : State → ℕ → World → Bool × World
  unfolding write_store
  save_to s file w =
      let (status, w') = set_position file 0 w in
      if is_error status then (false, close file w') else write_store s file w'

  unfoldable pub save : State → World → Bool × World
  unfolding accounts_open save_to
  save s w =
      let (found, file, w') = accounts_open mode_create w in
      if found then save_to s file w' else (false, w')

  unfoldable pub load_from : State → ℕ → World → State × World
  load_from s file w =
      let (status, bytes, w') = read file store_bytes w in
      (if is_store status bytes then adopt bytes s else s, close file w')

  unfoldable pub load : State → World → State × World
  unfolding accounts_open load_from
  load s w =
      let (found, file, w') = accounts_open mode_read w in
      if found then load_from s file w' else (s, w')

  unfoldable pub init : State → World → State × World
  unfolding load reset
  init s w = load (reset s) w

  unfoldable pub add : List ℕ → List ℕ → State → World → Bool × State × World
  add name password s w =
      let s' = append_account name password s in
      let (saved, w') = save s' w in
      if may_add name password s then (saved, s', w') else (false, s, w)

  unfoldable pub change_password : List ℕ → List ℕ → State → World → Bool × State × World
  change_password old_password new_password s w =
      let s' = replace_password new_password s in
      let (saved, w') = save s' w in
      if may_change old_password new_password s then (saved, s', w') else (false, s, w)
