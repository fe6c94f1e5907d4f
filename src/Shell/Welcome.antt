-- ===== src/Shell/Welcome.antt =====
-- Signing in: the keys of a user's name and password get that user through terminal_login.
use existent_os.Prelude.{
  append_nil, append_assoc, ℕ, zero, suc, ◌+◌, ◌<◌, ◌≤◌, ◌≡◌, ◌≢◌, refl, sym, ◌∙◌, ap, Bool, true,
  false, List, [], ◌∷◌, ◌++◌, Option, none, some, arith, get_or, ◌==◌, leb, if◌then◌else◌, length,
  length-append, All,
}
use existent_os.CString.{text, chars}
use existent_os.Accounts.State as Accounts
use existent_os.Accounts.Directory.{User, same, same_iff, stranger}
use existent_os.Accounts.Valid.{users, directory, IsValid}
use existent_os.Accounts.SignIn.{login-user}
use existent_os.Terminal as Text
use existent_os.Terminal.{Input}
use existent_os.Terminal.Reading.{seen, expected, typed_line, read_line-typed_line}
use existent_os.Shell.State.{State, write, write_line}
use existent_os.Shell.Run.{Run, done, Action, and_then, ◌>>◌, return, modify, read_line}
use existent_os.Shell.Programs.{sign_in, read_secret, try_login, login_round, login_rounds, login}

-- A key that is a character of the line: not zero, no correction, no carriage return.
abbrev pub IsLetter : ℕ → Type 0
IsLetter key = (key ≢ 0) × (key ≢ 8) × (key ≢ 13)

typed_line-letters :
    (room : ℕ) (xs typed rest : List ℕ)
    → All IsLetter xs
    → length typed + length xs < room
    → typed_line room (xs ++ (13 ∷ rest)) typed ≡ some (typed ++ xs, rest)
typed_line-letters room [] typed rest h fits = ap (λ t. some (t, rest)) (sym (append_nil typed))
typed_line-letters room (x ∷ xs) typed rest h fits =
    let full : leb room (length typed + 1) ≡ false = ground (arith, fits) in
    let character : x == 0 ≡ false = ground (arith, h.0.0) in
    let no_correction : x == 8 ≡ false = ground (arith, h.0.1) in
    let no_end : x == 13 ≡ false = ground (arith, h.0.2) in
    rw (character, no_correction, no_end, full)
      (typed_line-letters room xs (typed ++ (x ∷ [])) rest h.1
          (omega (arith, fits, length-append typed (x ∷ [])))
        ∙ ap (λ t. some (t, rest)) (append_assoc typed (x ∷ []) xs))

-- The line that was read.
pub record Reads (r : Option (Input × List ℕ)) (typed rest : List ℕ) : Type 0 where
  pub input : Input
  pub read : r ≡ some (input, rest)
  pub held : text input.line ≡ typed
  pub counted : input.length ≡ length typed

seen-Reads :
    (r : Option (Input × List ℕ)) (typed rest : List ℕ)
    → seen r ≡ expected (some (typed, rest))
    → Reads r typed rest
seen-Reads none typed rest h = absurd (cc (h))
seen-Reads (some (i, keys)) typed rest h = record {
  input = i;
  read = ap (λ k. some (i, k)) {x = keys} {y = rest} (cc (h));
  held = cc (h);
  counted = cc (h);
}

pub read-Reads :
    (echo : Bool) (room : ℕ) (line xs rest : List ℕ)
    → All IsLetter xs
    → length xs < room
    → room ≤ length line
    → Reads (Text.read_line echo room line (xs ++ (13 ∷ rest))) xs rest
read-Reads echo room line xs rest h fits size = seen-Reads _ xs rest (
    read_line-typed_line echo room line (xs ++ (13 ∷ rest)) (omega (arith, fits)) size
    ∙ ap expected (typed_line-letters room xs [] rest h (omega (arith, fits))))

module _ {World : Type 0} where
  -- The state after a line was read.
  abbrev pub read_state : State World → Input → List ℕ → State World
  read_state s i rest = record s { keys = rest; written = i.written ++ s.written }

  pub read_line-Reads :
      (room : ℕ) (line xs rest : List ℕ) (s : State World)
      → s.keys ≡ xs ++ (13 ∷ rest)
      → (r : Reads (Text.read_line s.echo_enabled room line (xs ++ (13 ∷ rest))) xs rest)
      → read_line room line s ≡ done (r.input.line, r.input.length) (read_state s r.input rest)
  unfolding read_line
  read_line-Reads room line xs rest s e r = rw (e, r.read)

  -- A run that ended with 1: what is left of the keys, and who is signed in.
  pub record IsWelcome (rest : List ℕ) (k : ℕ) (r : Run World ℕ) : Type 0 where
    pub state : State World
    pub ended : r ≡ done 1 state
    pub keys : state.keys ≡ rest
    pub current : (directory state.accounts).current ≡ some k

  path-IsWelcome :
      {rest : List ℕ} {k : ℕ} {r r' : Run World ℕ}
      → r ≡ r'
      → IsWelcome rest k r'
      → IsWelcome rest k r
  path-IsWelcome e w = record {
    state = w.state;
    ended = e ∙ w.ended;
    keys = w.keys;
    current = w.current;
  }

  module _ (fresh : ℕ → List ℕ) (stack : 32 ≤ length (fresh 32)) where
    sign_in-IsWelcome :
        (again : Action World ℕ) (rest username typed : List ℕ) (k : ℕ) (t : State World)
        → t.keys ≡ rest
        → (Accounts.login username typed t.accounts).0 ≡ true
        → (directory (Accounts.login username typed t.accounts).1).current ≡ some k
        → IsWelcome rest k (
            and_then (sign_in username typed t) (λ found.
              if found
              then return 1
              else do modify (write_line (chars "invalid credentials")); again))
    unfolding sign_in
    sign_in-IsWelcome again rest username typed k t keys found at = rw found (record {
      state = record t { accounts = (Accounts.login username typed t.accounts).1 };
      ended = refl;
      keys = keys;
      current = at;
    })

    try_login-IsWelcome :
        (again : Action World ℕ) (rest username password : List ℕ) (k : ℕ) (s : State World)
        → All IsLetter password
        → length password < 32
        → s.keys ≡ password ++ (13 ∷ rest)
        → ((typed : List ℕ)
            → text typed ≡ password
            → ((Accounts.login username typed s.accounts).0 ≡ true)
              × ((directory (Accounts.login username typed s.accounts).1).current ≡ some k))
        → IsWelcome rest k (try_login fresh again username s)
    unfolding try_login read_secret write
    try_login-IsWelcome again rest username password k s letters short e granted =
        let r = read-Reads false 32 (fresh 32) password rest letters short stack in
        let (found, at) = granted r.input.line r.held in
        rw
          (read_line-Reads 32 (fresh 32) password rest
            (record s { written = text (chars "password: ") ∷ s.written; echo_enabled = false }) e
            r)
          (sign_in-IsWelcome again rest username r.input.line k _ refl found at)

    login_round-IsWelcome :
        (again : Action World ℕ) (rest name password : List ℕ) (k : ℕ) (s : State World)
        → All IsLetter name
        → All IsLetter password
        → 0 < length name
        → length name < 32
        → length password < 32
        → s.keys ≡ name ++ (13 ∷ (password ++ (13 ∷ rest)))
        → ((username typed : List ℕ)
            → text username ≡ name
            → text typed ≡ password
            → ((Accounts.login username typed s.accounts).0 ≡ true)
              × ((directory (Accounts.login username typed s.accounts).1).current ≡ some k))
        → IsWelcome rest k (login_round fresh again s)
    unfolding login_round write
    login_round-IsWelcome again rest name password k s ln lp some_name sn sp e granted =
        let r =
          read-Reads s.echo_enabled 32 (fresh 32) name (password ++ (13 ∷ rest)) ln sn stack in
        let there : r.input.length == 0 ≡ false = ground (arith, r.counted) in
        rw
          (
            read_line-Reads 32 (fresh 32) name (password ++ (13 ∷ rest))
                (record s { written = text (chars "login: ") ∷ s.written }) e r,
            there,
          )
          (try_login-IsWelcome again rest r.input.line password k _ lp sp refl
            (λ typed h. granted r.input.line typed r.held h))

    login_rounds-IsWelcome :
        (fuel : ℕ) (rest : List ℕ) (k : ℕ) (s : State World)
        → 0 < fuel
        → ((again : Action World ℕ) → IsWelcome rest k (login_round fresh again s))
        → IsWelcome rest k (login_rounds fresh fuel s)
    unfolding login_rounds
    login_rounds-IsWelcome zero rest k s h w = absurd (omega arith)
    login_rounds-IsWelcome (suc fuel) rest k s h w = w (login_rounds fresh fuel)

    -- On a valid table, with an array on the stack of at least 32 cells, when the keys are the name of
    -- a user, a carriage return, that user's password and another, and both have less than 32
    -- characters, each of which can be typed, and the name at least one: terminal_login ends with 1,
    -- the user is signed in, and the keys behind them are left.
    pub login-IsWelcome :
        (rest : List ℕ) (k : ℕ) (u : User) (s : State World)
        → IsValid s.accounts
        → k < s.accounts.account_count
        → get_or (users s.accounts) k stranger ≡ u
        → All IsLetter u.name
        → All IsLetter u.password
        → 0 < length u.name
        → length u.name < 32
        → length u.password < 32
        → s.keys ≡ u.name ++ (13 ∷ (u.password ++ (13 ∷ rest)))
        → IsWelcome rest k (login fresh s)
    unfolding login
    login-IsWelcome rest k u s v below at ln lp some_name sn sp e =
        login_rounds-IsWelcome (length s.keys + 1) rest k s (omega arith) (λ again.
          login_round-IsWelcome again rest u.name u.password k s ln lp some_name sn sp e
            (λ username typed same_name same_password.
              let granted = login-user k u username typed v below at same_name in
              let yes : same u.password (text typed) ≡ true =
                (same_iff u.password (text typed)).1 (sym same_password) in
              let known = rw yes at (granted) in (ap (λ p. p.0) known, ap (λ p. p.1) known)))
