-- ===== src/Shell/Loops/Commands.antt =====
-- Each command of the terminal that runs no script ends or waits for a key.
use existent_os.Prelude.{
  refl, ℕ, zero, suc, ◌<◌, ◌≤◌, ◌≡◌, ◌∙◌, Bool, true, false, not, List, [], arith, ltb, ◌==◌,
  if◌then◌else◌, length, drop, Bool-cases, inl, inr,
}
use existent_os.CString.{chars}
use existent_os.Firmware.{Firmware, is_error, mode_read}
use existent_os.Firmware.OpenFile.{open_file}
use existent_os.Shell.State.{State, Mode, write, write_line, set_mode}
use existent_os.Shell.Run.{Action, ◌>>=◌}
use existent_os.Shell.Files.{cat_rounds, cat_file, write_file}
use existent_os.Shell.Commands.{
  Command, switch_echo, rem, switch_lang, echo, nano, cat, touch, rm, source, system, list_drive,
  exit, cd, whoami, grep, users, useradd, passwd, login, unknown, write as write_command, enter,
  print,
}
use existent_os.Shell.Programs
use existent_os.Shell.Replies.{argument, or_usage, on_world}
use existent_os.Shell.Execute.{add_user, store_password, change_password, perform}
use existent_os.Shell.Loops.{
  IsOver, and_then-IsOver, if-IsOver, login-IsOver, run_nano-IsOver, read_secret-IsOver,
}
use existent_os.Shell.Loops.Keys.{
  write_line-keys, write_arg_list-keys, print_lines-keys, switch_echo_to-keys, switch_lang_to-keys,
  change_drive-keys, search_arguments-keys, write_users-keys, list_directory-keys,
}

-- Files come to an end: from every state at most `reads` reads of a file in a row can fill a buffer
-- of 120 bytes.
pub record IsFinite (F : Firmware) (reads : ℕ) : Type 0 where
  pub left : ℕ → F.World → ℕ
  pub bounded : (file : ℕ) (w : F.World) → left file w ≤ reads
  pub shrinks :
      (file : ℕ) (w : F.World)
      → (F.read file 120 w).0 ≡ 0
      → length (F.read file 120 w).1 ≡ 120
      → left file (F.read file 120 w).2 < left file w

module _ (F : Firmware) (ready : Bool) (fresh : ℕ → List ℕ) (reads : ℕ)
    (finite : IsFinite F reads) where
  -- An action that keeps the keys or takes some.
  abbrev pub Takes : {A : Type 0} → ℕ → Action F.World A → Type 0
  Takes n act = (s : State F.World) → length s.keys < n → IsOver n (act s)

  module _ (n : ℕ) where
    pub few : {keys keys' : List ℕ} → keys ≡ keys' → length keys' < n → length keys < n
    few e h = rw e h

    or_usage-IsOver : (usage : List ℕ) (succeeded : Bool) → Takes n (or_usage usage succeeded)
    unfolding or_usage
    or_usage-IsOver usage true s h = h
    or_usage-IsOver usage false s h = few (write_line-keys usage s) h

    on_world-IsOver : (call : F.World → Bool × F.World) → Takes n (on_world call)
    unfolding on_world
    on_world-IsOver call s h = h

    -- A command with arguments that makes a call, and writes its usage if it fails.
    called :
        (right : Bool) (usage : List ℕ) (act : Action F.World Bool)
        → Takes n act
        → Takes n (if right then (do answer ← act; or_usage usage answer) else or_usage usage false)
    called right usage act k s h =
        if-IsOver n right _ (or_usage usage false) s
          (and_then-IsOver n n (act s) _ (k s h) (λ answer t l. or_usage-IsOver usage answer t l))
          (or_usage-IsOver usage false s h)

    cat_rounds-IsOver :
        (fuel file : ℕ) (s : State F.World)
        → finite.left file s.world < fuel
        → length s.keys < n
        → IsOver n (cat_rounds F ready fuel file s)
    unfolding cat_rounds write_line write
    cat_rounds-IsOver zero file s enough h = absurd (omega arith)
    cat_rounds-IsOver (suc fuel) file s enough h = elim (Bool-cases (is_error answer.0)) [
      | inl e ↦ rw e h
      | inr e ↦ elim (Bool-cases (length answer.1 == 120)) [
        | inl f ↦
            let fewer = finite.shrinks file s.world (ground arith) (ground arith) in
            let shown : length answer.1 == 0 ≡ false = ground arith in
            rw (e, f, shown)
              (cat_rounds-IsOver fuel file (write answer.1 (record s { world = answer.2 }))
                (omega (arith, fewer, enough)) h)
        | inr f ↦ elim (Bool-cases (length answer.1 == 0)) [
          | inl g ↦ rw (e, f, g) h
          | inr g ↦ rw (e, f, g) h
        ]
      ]
    ]
      where
        answer : ℕ × List ℕ × F.World
        answer = F.read file 120 s.world

    cat_file-IsOver :
        (fuel : ℕ) (path : List ℕ) → reads < fuel → Takes n (cat_file F ready fuel path)
    unfolding cat_file
    cat_file-IsOver fuel path enough s h =
        let opened = open_file F ready path mode_read 0 s.world in
        let few_reads = finite.bounded opened.1 opened.2 in
        elim (Bool-cases opened.0) [
          | inl e ↦ rw e (cat_rounds-IsOver fuel opened.1 _ (omega (arith, few_reads, enough)) h)
          | inr e ↦ rw e h
        ]

    add_user-IsOver : (args : List (List ℕ)) → Takes n (add_user F ready fresh args)
    unfolding add_user write_line write
    add_user-IsOver args s h = elim (Bool-cases (not (length args == 3))) [
      | inl e ↦ rw e h
      | inr e ↦ rw e h
    ]

    change_password-IsOver : Takes n (change_password F ready fresh)
    unfolding change_password store_password write_line write
    change_password-IsOver s h =
        and_then-IsOver n n (Programs.read_secret fresh 32 (write (chars "current password: ") s)) _
          (read_secret-IsOver fresh n 32 _ (omega (arith, h)))
          (λ old t k.
            and_then-IsOver n n (Programs.read_secret fresh 32 (write (chars "new password: ") t)) _
              (read_secret-IsOver fresh n 32 _ (omega (arith, k))) (λ new u l. l))

    pub perform-IsOver :
        (run : List ℕ → Action F.World ℕ) (fuel : ℕ) (command : Command) (args : List (List ℕ))
        (rest : List ℕ)
        → reads < fuel
        → (command ≡ Command.source → ⊥)
        → Takes n (perform F ready fresh run fuel command args rest)
    unfolding perform set_mode
    perform-IsOver run fuel switch_echo args rest enough other s h =
        few (switch_echo_to-keys args s) h
    perform-IsOver run fuel rem args rest enough other s h = h
    perform-IsOver run fuel switch_lang args rest enough other s h =
        few (switch_lang_to-keys args s) h
    perform-IsOver run fuel echo args rest enough other s h =
        few (write_line-keys [] _ ∙ write_arg_list-keys true (drop 1 args) s) h
    perform-IsOver run fuel nano args rest enough other s h =
        and_then-IsOver n n (Programs.run_nano fresh s) _
          (run_nano-IsOver fresh n s (omega (arith, h))) (λ a t k. k)
    perform-IsOver run fuel cat args rest enough other s h =
        called (length args == 2) _ _ (cat_file-IsOver fuel (argument args 1) enough) s h
    perform-IsOver run fuel touch args rest enough other s h =
        called (length args == 2) _ _ (on_world-IsOver _) s h
    perform-IsOver run fuel rm args rest enough other s h =
        called (length args == 2) _ _ (on_world-IsOver _) s h
    perform-IsOver run fuel (write_command append) args rest enough other s h =
        if-IsOver n (ltb (length args) 3) (or_usage _ false) _ s (or_usage-IsOver _ false s h) (
          and_then-IsOver n n
            (on_world (write_file F ready append (argument args 1) (drop 2 args)) s) _
            (on_world-IsOver _ s h) (λ answer t l. or_usage-IsOver _ answer t l))
    perform-IsOver run fuel source args rest enough other s h = absurd (other refl)
    perform-IsOver run fuel system args rest enough other s h = few (write_line-keys rest s) h
    perform-IsOver run fuel list_drive args rest enough other s h =
        few (list_directory-keys F ready fresh args s) h
    perform-IsOver run fuel exit args rest enough other s h = few (write_line-keys _ s) h
    perform-IsOver run fuel cd args rest enough other s h = few (change_drive-keys args s) h
    perform-IsOver run fuel whoami args rest enough other s h = few (write_line-keys _ s) h
    perform-IsOver run fuel grep args rest enough other s h = few (search_arguments-keys args s) h
    perform-IsOver run fuel users args rest enough other s h = few (write_users-keys _ 0 s) h
    perform-IsOver run fuel useradd args rest enough other s h = add_user-IsOver args s h
    perform-IsOver run fuel passwd args rest enough other s h = change_password-IsOver s h
    perform-IsOver run fuel login args rest enough other s h =
        and_then-IsOver n n (Programs.login fresh s) _ (login-IsOver fresh n s (omega (arith, h)))
          (λ a t k. k)
    perform-IsOver run fuel (enter Mode.bash) args rest enough other s h =
        few (write_line-keys _ _) h
    perform-IsOver run fuel (enter Mode.batch) args rest enough other s h =
        few (write_line-keys _ _) h
    perform-IsOver run fuel (print lines) args rest enough other s h =
        few (print_lines-keys lines s) h
    perform-IsOver run fuel unknown args rest enough other s h = few (write_line-keys _ s) h
