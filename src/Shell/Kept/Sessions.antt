-- ===== src/Shell/Kept/Sessions.antt =====
-- Whole command lines, and the batch and the shell that run them.
use existent_os.Prelude.{
  ℕ, zero, suc, Bool, true, false, List, [], ◌∷◌, Option, none, some, ◌==◌, if◌then◌else◌, length,
  All,
}
use existent_os.CString.{text}
use existent_os.Firmware.{Firmware}
use existent_os.Accounts.State as Accounts
use existent_os.Accounts.Valid.{IsChars}
use existent_os.Terminal.{max_line}
use existent_os.Terminal.Segments.{command_args, copy_segment, cut}
use existent_os.Terminal.Chars.{AreParts, cut-AreParts, copy_segment-IsChars, text-IsChars}
use existent_os.Shell.State.{State, write, current_prompt}
use existent_os.Shell.Run.{Run, done, Action, ◌>>=◌, ◌>>◌, return, read_line}
use existent_os.Shell.Commands.{command_of}
use existent_os.Shell.Replies.{parse, argument, try_pipeline}
use existent_os.Shell.Execute.{perform, run_single, execute_step, execute_command}
use existent_os.Shell.Session.{run_batch_lines, shell_round, shell_rounds, run_shell}
use existent_os.Shell.Kept.{IsKept, IsWide, Good, Ends, and_then-Ends, if-Ends}
use existent_os.Shell.Kept.Pure.{
  write-Good, write_line-Good, parse-Good, AfterPipeline, try_pipeline-Good,
}
use existent_os.Shell.Kept.Actions.{GoodLine, read_line-Ends}
use existent_os.Shell.Kept.Commands.{Keeps, Runs, perform-Ends}

module _ (F : Firmware) (ready : Bool) (fresh : ℕ → List ℕ) (P : Accounts.State → Type 0)
    (kept : IsKept F ready P) (wide : IsWide F fresh) where
  abbrev Stays : {A : Type 0} → A → State F.World → Type 0
  Stays = Keeps F ready fresh P kept wide

  abbrev pub RunsWell : (List ℕ → Action F.World ℕ) → Type 0
  RunsWell = Runs F ready fresh P kept wide

  run_single-Ends :
      (run : List ℕ → Action F.World ℕ)
      → RunsWell run
      → (fuel : ℕ) (command : List ℕ) (args : List (List ℕ)) (s : State F.World) → IsChars command
      → All IsChars args
      → Good P s
      → Ends Stays (run_single F ready fresh run fuel command args s)
  unfolding run_single
  run_single-Ends run runs fuel command args s c h g =
      by_pipeline (try_pipeline fresh command s)
        (try_pipeline-Good P fresh wide.stack command s c g)
    where
      by_pipeline :
          (r : Option (State F.World))
          → AfterPipeline P fresh wide.stack r
          → Ends Stays (elim r as (λ r. Run F.World ℕ) [
            | some s' ↦ done 0 s'
            | none ↦
                if length args == 0
                then done 0 s
                else perform F ready fresh run fuel
                    (command_of (argument args 0))
                    args
                    (command_args command)
                    s
          ])
      by_pipeline (some s') k = k
      by_pipeline none k = if-Ends Stays (length args == 0) _ _ g (
          perform-Ends F ready fresh P kept wide run runs fuel (command_of (argument args 0)) args
            (command_args command) s h g)

  execute_step-Ends :
      (run : List ℕ → Action F.World ℕ)
      → RunsWell run
      → (fuel : ℕ) → RunsWell (execute_step F ready fresh run fuel)
  unfolding execute_step
  execute_step-Ends run runs fuel command s c g =
      let (args_chars, g') = parse-Good P command s c g in
      by_parts (parse command s).0 (parse command s).1 args_chars g' (cut b'&' command)
        (cut-AreParts b'&' command c)
    where
      by_parts :
          (args : List (List ℕ)) (t : State F.World)
          → All IsChars args
          → Good P t
          → (parts : Option (List ℕ × List ℕ)) → AreParts parts
          → Ends Stays (elim parts as (λ p. Run F.World ℕ) [
            | none ↦ run_single F ready fresh run fuel command args t
            | some (before, after) ↦
                (do
                  run (copy_segment (fresh max_line) before)
                  run (copy_segment (fresh max_line) (text after)))
                  t
          ])
      by_parts args t h k none p = run_single-Ends run runs fuel command args t c h k
      by_parts args t h k (some (before, after)) p =
          and_then-Ends Stays Stays (run (copy_segment (fresh max_line) before) t) _
            (runs _ t (copy_segment-IsChars (fresh max_line) before (wide.stack max_line) p.0) k)
            (λ _ u m.
              runs _ u
                (copy_segment-IsChars (fresh max_line) (text after) (wide.stack max_line)
                  (text-IsChars after p.1))
                m)

  -- For a property of the accounts that the calls of accounts.c keep: if it holds, and the static
  -- line, the keys to come and the command are CHAR16 values, then after terminal_execute_command,
  -- where it ends, these hold again, whatever the command and the firmware do.
  pub execute_command-Ends : (fuel : ℕ) → RunsWell (execute_command F ready fresh fuel)
  unfolding execute_command
  execute_command-Ends zero command s c g = tt
  execute_command-Ends (suc fuel) command s c g =
      execute_step-Ends (execute_command F ready fresh fuel) (execute_command-Ends fuel) fuel
        command s c g

  pub run_batch_lines-Ends :
      (run : List ℕ → Action F.World ℕ)
      → RunsWell run
      → (lines : List (List ℕ)) (s : State F.World) → All IsChars lines
      → Good P s
      → Ends Stays (run_batch_lines run lines s)
  unfolding run_batch_lines
  run_batch_lines-Ends run runs [] s h g = g
  run_batch_lines-Ends run runs (l ∷ lines) s h g =
      and_then-Ends Stays Stays (run l (if s.echo_enabled then write (current_prompt s) s else s)) _
        (runs l _ h.0 (prompted s.echo_enabled))
        (λ _ t k. run_batch_lines-Ends run runs lines t h.1 k)
    where
      prompted : (echo : Bool) → Good P (if echo then write (current_prompt s) s else s)
      prompted true = write-Good P _ s g
      prompted false = g

  shell_rounds-Ends :
      (run : List ℕ → Action F.World ℕ)
      → RunsWell run
      → (rounds : ℕ) (s : State F.World) → Good P s
      → Ends Stays (shell_rounds run fresh rounds s)
  unfolding shell_rounds shell_round
  shell_rounds-Ends run runs zero s g = tt
  shell_rounds-Ends run runs (suc rounds) s g =
      and_then-Ends (GoodLine P fresh wide.stack) Stays
        (read_line max_line (fresh max_line) (write (current_prompt s) s)) _
        (read_line-Ends P fresh wide.stack max_line (fresh max_line) _ (wide.stack max_line)
          (write-Good P _ s g))
        (λ typed t h.
          by_length (typed.1 == 0) typed.0 t h.0 h.1 (shell_rounds-Ends run runs rounds t h.1)
            (shell_rounds-Ends run runs rounds))
    where
      by_result :
          (stay : Bool) (u : State F.World)
          → Good P u
          → ((u : State F.World) → Good P u → Ends Stays (shell_rounds run fresh rounds u))
          → Ends Stays ((if stay then shell_rounds run fresh rounds else return 0) u)
      by_result true u k more = more u k
      by_result false u k more = k

      by_length :
          (blank : Bool) (line : List ℕ) (t : State F.World)
          → IsChars line
          → Good P t
          → Ends Stays (shell_rounds run fresh rounds t)
          → ((u : State F.World) → Good P u → Ends Stays (shell_rounds run fresh rounds u))
          → Ends Stays (
              (if blank then shell_rounds run fresh rounds else (do
                left ← run line
                (if left == 0 then shell_rounds run fresh rounds else return 0)))
                t)
      by_length true line t c k again more = again
      by_length false line t c k again more =
          and_then-Ends Stays Stays (run line t) _ (runs line t c k)
            (λ left u m. by_result (left == 0) u m more)

  pub run_shell-Ends :
      (run : List ℕ → Action F.World ℕ)
      → RunsWell run
      → (s : State F.World) → Good P s
      → Ends Stays (run_shell run fresh s)
  unfolding run_shell
  run_shell-Ends run runs s g = shell_rounds-Ends run runs _ _ (write_line-Good P _ s g)
