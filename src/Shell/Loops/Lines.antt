-- ===== src/Shell/Loops/Lines.antt =====
-- Whole command lines that run no script end or wait for a key.
use existent_os.Prelude.{
  ℕ, zero, suc, ◌+◌, ◌<◌, ◌≡◌, Bool, List, Option, none, some, arith, ◌==◌, if◌then◌else◌, length,
  Bool-cases, inl, inr,
}
use existent_os.CString.{text}
use existent_os.Firmware.{Firmware}
use existent_os.Terminal.{max_line}
use existent_os.Terminal.Segments.{command_args, copy_segment, cut}
use existent_os.Terminal.Lengths.{AreShorter, length-copy_segment, cut-AreShorter}
use existent_os.Shell.State.{State}
use existent_os.Shell.Run.{Run, done, Action, ◌>>◌}
use existent_os.Shell.Commands.{Command, command_of}
use existent_os.Shell.Replies.{parse, argument, try_pipeline}
use existent_os.Shell.Execute.{perform, run_single, execute_step, execute_command}
use existent_os.Shell.Loops.{IsOver, and_then-IsOver}
use existent_os.Shell.Loops.Keys.{SameKeys, try_pipeline-keys, parse-keys}
use existent_os.Shell.Loops.Commands.{IsFinite, perform-IsOver}

-- A line none of whose parts between `&` is the command `source`, whatever the static line of the
-- terminal holds.
pub data RunsNoScript (World : Type 0) (fresh : ℕ → List ℕ) : List ℕ → Type 0 where
  alone :
      (line : List ℕ)
      → cut b'&' line ≡ none
      → ((s : State World) → command_of (argument (parse line s).0 0) ≡ Command.source → ⊥)
      → RunsNoScript World fresh line
  both :
      (line before after : List ℕ)
      → cut b'&' line ≡ some (before, after)
      → RunsNoScript World fresh (copy_segment (fresh max_line) before)
      → RunsNoScript World fresh (copy_segment (fresh max_line) (text after))
      → RunsNoScript World fresh line

module _ (F : Firmware) (ready : Bool) (fresh : ℕ → List ℕ) (reads : ℕ) (finite : IsFinite F reads)
    (cells : length (fresh max_line) ≡ max_line) where
  -- An action that keeps the keys or takes some.
  abbrev Takes : {A : Type 0} → ℕ → Action F.World A → Type 0
  Takes n act = (s : State F.World) → length s.keys < n → IsOver n (act s)

  module _ (n : ℕ) where
    few : {keys keys' : List ℕ} → keys ≡ keys' → length keys' < n → length keys < n
    few e h = rw e h

    run_single-IsOver :
        (run : List ℕ → Action F.World ℕ) (fuel : ℕ) (command : List ℕ) (args : List (List ℕ))
        → reads < fuel
        → (command_of (argument args 0) ≡ Command.source → ⊥)
        → Takes n (run_single F ready fresh run fuel command args)
    unfolding run_single
    run_single-IsOver run fuel command args enough other s h =
        by_pipeline (try_pipeline fresh command s) (try_pipeline-keys fresh command s)
      where
        by_pipeline :
            (r : Option (State F.World))
            → SameKeys s.keys r
            → IsOver n (elim r as (λ r. Run F.World ℕ) [
              | some s' ↦ done 0 s'
              | none ↦
                  if length args == 0
                  then done 0 s
                  else perform F ready fresh run fuel
                      (command_of (argument args 0))
                      args
                      (command_args command)
                      s
            ])
        by_pipeline (some s') e = few e h
        by_pipeline none e = elim (Bool-cases (length args == 0)) [
          | inl b ↦ rw b h
          | inr b ↦ rw b (
              perform-IsOver F ready fresh reads finite n run fuel (command_of (argument args 0))
                args (command_args command) enough other s h)
        ]

    -- What is run of a command: one command that is not `source`, or its two parts.
    abbrev Parts : (List ℕ → Action F.World ℕ) → List (List ℕ) → Option (List ℕ × List ℕ) → Type 0
    Parts run args none = command_of (argument args 0) ≡ Command.source → ⊥
    Parts run args (some (before, after)) =
        Takes n (run (copy_segment (fresh max_line) before))
        × Takes n (run (copy_segment (fresh max_line) (text after)))

    execute_step-IsOver :
        (run : List ℕ → Action F.World ℕ) (fuel : ℕ) (command : List ℕ) (s : State F.World)
        → reads < fuel
        → Parts run (parse command s).0 (cut b'&' command)
        → length s.keys < n
        → IsOver n (execute_step F ready fresh run fuel command s)
    unfolding execute_step
    execute_step-IsOver run fuel command s enough parts h =
        by_parts (parse command s).0 (parse command s).1 (few (parse-keys command s) h)
          (cut b'&' command) parts
      where
        by_parts :
            (args : List (List ℕ)) (t : State F.World)
            → length t.keys < n
            → (parts : Option (List ℕ × List ℕ)) → Parts run args parts
            → IsOver n (elim parts as (λ p. Run F.World ℕ) [
              | none ↦ run_single F ready fresh run fuel command args t
              | some (before, after) ↦
                  (do
                    run (copy_segment (fresh max_line) before)
                    run (copy_segment (fresh max_line) (text after)))
                    t
            ])
        by_parts args t k none other = run_single-IsOver run fuel command args enough other t k
        by_parts args t k (some (before, after)) p =
            and_then-IsOver n n (run (copy_segment (fresh max_line) before) t) _ (p.0 t k)
              (λ _ u m. p.1 u m)

    -- On firmware whose files come to an end, so that at most `reads` reads in a row fill a buffer,
    -- and with a line's array of its declared size, a command line none of whose parts is `source`
    -- ends or waits for a key, on any fuel that exceeds the length of the line and `reads` together
    -- by two, and it gives no key back.
    pub execute_command-IsOver :
        (fuel : ℕ) (command : List ℕ)
        → length (text command) + reads + 1 < fuel
        → RunsNoScript F.World fresh command
        → Takes n (execute_command F ready fresh fuel command)
    unfolding execute_command
    execute_command-IsOver zero command enough runs s h = absurd (omega arith)
    execute_command-IsOver (suc fuel) command enough (alone _ single other) s h =
        execute_step-IsOver (execute_command F ready fresh fuel) fuel command s
          (omega (arith, enough)) (rw single (other s)) h
    execute_command-IsOver (suc fuel) command enough (both _ before after parts left right) s h =
        let shorter : AreShorter (length (text command)) (some (before, after)) =
          rw parts at (cut-AreShorter b'&' command) in
        let first = length-copy_segment (fresh max_line) before cells in
        let second = length-copy_segment (fresh max_line) (text after) cells in
        execute_step-IsOver (execute_command F ready fresh fuel) fuel command s
          (omega (arith, enough))
          (rw parts (
            execute_command-IsOver fuel (copy_segment (fresh max_line) before)
                (omega (arith, first, shorter.0, enough)) left,
            execute_command-IsOver fuel (copy_segment (fresh max_line) (text after))
                (omega (arith, second, shorter.1, enough)) right,
          ))
          h
