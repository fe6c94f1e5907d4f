-- ===== src/Shell/Alone.antt =====
-- A command line that is one command: no `&` and no `|`.
use existent_os.Prelude.{
  ℕ, suc, ◌≡◌, refl, Bool, List, ◌∷◌, Option, none, some, false, arith, length, ◌==◌, if◌then◌else◌,
}
use existent_os.Firmware.{Firmware}
use existent_os.Terminal.{max_line}
use existent_os.Terminal.Segments.{cut, command_args, copy_segment}
use existent_os.CString.{text}
use existent_os.Shell.State.{State}
use existent_os.Shell.Run.{Run, done, Action, ◌>>◌}
use existent_os.Shell.Commands.{command_of}
use existent_os.Shell.Replies.{parse, try_pipeline, echo_to_grep}
use existent_os.Shell.Execute.{perform, run_single, execute_step, execute_command}

-- The command is not split, and argv is a word and the arguments.
pub record IsAlone {World : Type 0} (command word : List ℕ) (args : List (List ℕ)) (s : State World)
    : Type 0 where
  pub alone : cut b'&' command ≡ none
  pub no_pipe : cut b'|' command ≡ none
  pub words : (parse command s).0 ≡ word ∷ args

module _ (F : Firmware) (ready : Bool) (fresh : ℕ → List ℕ) where
  try_pipeline-none :
      (command : List ℕ) (s : State F.World)
      → cut b'|' command ≡ none
      → try_pipeline fresh command s ≡ none
  unfolding try_pipeline
  try_pipeline-none command s e = by_parts (cut b'|' command) e
    where
      by_parts :
          (parts : Option (List ℕ × List ℕ))
          → parts ≡ none
          → (elim parts as (λ p. Option (State F.World)) [
            | none ↦ none
            | some (before, after) ↦ some (echo_to_grep fresh before after s)
          ])
            ≡ none
      by_parts none h = refl
      by_parts (some p) h = absurd (cc (h))

  run_single-perform :
      (run : List ℕ → Action F.World ℕ) (fuel : ℕ) (command word : List ℕ) (args : List (List ℕ))
      (s : State F.World)
      → try_pipeline fresh command s ≡ none
      → run_single F ready fresh run fuel command (word ∷ args) s
        ≡ perform F ready fresh run fuel (command_of word) (word ∷ args) (command_args command) s
  unfolding run_single
  run_single-perform run fuel command word args s e = by_pipeline (try_pipeline fresh command s) e
    where
      by_pipeline :
          (r : Option (State F.World))
          → r ≡ none
          → (elim r as (λ r. Run F.World ℕ) [
            | some s' ↦ done 0 s'
            | none ↦
                if length (word ∷ args) == 0
                then done 0 s
                else perform F ready fresh run fuel
                    (command_of word)
                    (word ∷ args)
                    (command_args command)
                    s
          ])
            ≡ perform F ready fresh run fuel
                (command_of word)
                (word ∷ args)
                (command_args command)
                s
      by_pipeline (some s') h = absurd (cc (h))
      by_pipeline none h =
          let some_word : (length (word ∷ args) == 0) ≡ false = ground arith in rw some_word refl

  -- terminal_execute_command performs the command of the word, after the line was split.
  pub execute_command-perform :
      (fuel : ℕ) (command word : List ℕ) (args : List (List ℕ)) (s : State F.World)
      → IsAlone command word args s
      → execute_command F ready fresh (suc fuel) command s
        ≡ perform F ready fresh
            (execute_command F ready fresh fuel)
            fuel
            (command_of word)
            (word ∷ args)
            (command_args command)
            (parse command s).1
  unfolding execute_command execute_step
  execute_command-perform fuel command word args s u = by_parts (cut b'&' command) u.alone
    where
      by_parts :
          (parts : Option (List ℕ × List ℕ))
          → parts ≡ none
          → (elim parts as (λ p. Run F.World ℕ) [
            | none ↦
                run_single F ready fresh
                  (execute_command F ready fresh fuel)
                  fuel
                  command
                  (parse command s).0
                  (parse command s).1
            | some (before, after) ↦
                (do
                  execute_command F ready fresh fuel (copy_segment (fresh max_line) before)
                  execute_command F ready fresh fuel (copy_segment (fresh max_line) (text after)))
                  (parse command s).1
          ])
            ≡ perform F ready fresh
                (execute_command F ready fresh fuel)
                fuel
                (command_of word)
                (word ∷ args)
                (command_args command)
                (parse command s).1
      by_parts (some p) h = absurd (cc (h))
      by_parts none h = rw u.words (
          run_single-perform (execute_command F ready fresh fuel) fuel command word args
            (parse command s).1 (try_pipeline-none command (parse command s).1 u.no_pipe))
