-- ===== src/Build/Actions.antt =====
-- The parts of CheckInputSignature and RunAction of BuildQueue.cpp that run with the queue's lock
-- released: what they decide from the outside world, and the order of what they do to it. The
-- digests, the file system and the processes are not this code's; they enter as arguments.
pub mod Decision
pub mod Outcomes
use tundra.Prelude.Strings.{same_string}
use tundra.Build.Node.{NodeData, BuildProgress}
use tundra.Prelude.{
  ℕ, Bool, true, false, not, ◌&&◌, List, [], ◌∷◌, ◌++◌, Option, none, some, if◌then◌else◌, ◌==◌,
}

-- The names that OutputFilesDiffer compares, in order; the counts differ where one list ends.
pub output_files_differ : List (List ℕ) → List (List ℕ) → Bool
unfolding same_string
output_files_differ [] [] = false
output_files_differ [] (y ∷ ys) = true
output_files_differ (x ∷ xs) [] = true
output_files_differ (x ∷ xs) (y ∷ ys) =
    let rest = output_files_differ xs ys in if same_string x y then rest else true

-- OutputFilesMissing, over what StatCacheStat says of each file.
pub output_files_missing : (List ℕ → Bool) → List (List ℕ) → Bool
output_files_missing exists [] = false
output_files_missing exists (f ∷ fs) =
    let rest = output_files_missing exists fs in if not (exists f) then true else rest

-- NodeStateData: what the last build recorded of a node.
pub record PreviousState {ℓ} (Digest : Type ℓ) : Type ℓ where
  pub input_signature : Digest
  pub build_result : ℕ
  pub output_files : List (List ℕ)

module _ {ℓ} {Digest : Type ℓ} (same : Digest → Digest → Bool) (exists : List ℕ → Bool) where
  -- The decision at the end of CheckInputSignature.
  pub next_after_check : Option (PreviousState Digest) → Digest → List (List ℕ) → BuildProgress
  next_after_check none signature outputs = BuildProgress.run_action
  next_after_check (some prev) signature outputs =
      if not (same prev.input_signature signature)
      then BuildProgress.run_action
      else if not (prev.build_result == 0)
      then BuildProgress.run_action
      else if output_files_differ outputs prev.output_files
      then BuildProgress.run_action
      else if output_files_missing exists outputs
      then BuildProgress.run_action
      else BuildProgress.up_to_date

pub record ExecResult : Type 0 where
  pub return_code : ℕ
  pub was_signalled : Bool

-- What RunAction does to the outside world.
pub data Effect : Type 0 where
  make_directories remove_outputs mark_outputs_dirty : Effect
  execute : List ℕ → Effect

pub record Outcome : Type 0 where
  pub progress : BuildProgress
  pub was_signalled : Bool
  pub effects : List Effect

module _ (node : NodeData) (made : Bool) (process : List ℕ → ExecResult) where
  -- Before the processes: the directories, and the old outputs unless they may be overwritten.
  preparation : List Effect
  preparation =
      Effect.make_directories
      ∷ (if node.overwrite_outputs
          then []
          else Effect.remove_outputs ∷ Effect.mark_outputs_dirty ∷ [])

  -- The pre-action is given, and its process is launched first; the action follows if it returns 0.
  launch : Option (List ℕ) → ExecResult × List Effect
  launch none = (process node.action, Effect.execute node.action ∷ [])
  launch (some pre) =
      if (process pre).return_code == 0
      then (process node.action, Effect.execute pre ∷ Effect.execute node.action ∷ [])
      else (process pre, Effect.execute pre ∷ [])

  -- From MutexUnlock to the end of RunAction.
  unfoldable pub run_unlocked : Outcome
  unfolding preparation launch
  run_unlocked =
      if not made
      then record {
        progress = BuildProgress.failed;
        was_signalled = false;
        effects = Effect.make_directories ∷ [];
      }
      else let (result, launched) = launch node.pre_action in
        let done : List Effect = preparation ++ (launched ++ (Effect.mark_outputs_dirty ∷ [])) in
        if result.return_code == 0
        then record {
          progress = BuildProgress.succeeded;
          was_signalled = result.was_signalled;
          effects = done;
        }
        else record {
          progress = BuildProgress.failed;
          was_signalled = result.was_signalled;
          effects =
              done
              ++ (if node.precious_outputs
                  then []
                  else Effect.remove_outputs ∷ Effect.mark_outputs_dirty ∷ []);
        }
