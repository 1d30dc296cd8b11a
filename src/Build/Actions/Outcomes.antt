-- ===== src/Build/Actions/Outcomes.antt =====
-- What RunAction leaves behind, on each of its ways out.
use tundra.Build.Node.{NodeData, BuildProgress}
use tundra.Build.Actions.{ExecResult, run_unlocked}
use tundra.Prelude.{ℕ, ◌≡◌, refl, ◌↔◌, Bool, true, List, Option, none, some, arith}

-- The process of the pre-action, if there is one, returns 0, and so does that of the action.
abbrev pub Runs : (List ℕ → ExecResult) → Option (List ℕ) → List ℕ → Type 0
Runs process none action = (process action).return_code ≡ 0
Runs process (some pre) action =
    ((process pre).return_code ≡ 0) × ((process action).return_code ≡ 0)

module _ (node : NodeData) (made : Bool) (process : List ℕ → ExecResult) where
  succeeded_with :
      (pre : Option (List ℕ))
      → node.pre_action ≡ pre
      → ((run_unlocked node made process).progress ≡ BuildProgress.succeeded)
        ↔ ((made ≡ true) × Runs process pre node.action)
  unfolding run_unlocked
  succeeded_with none e = (λ h. ground arith, λ h. ground arith)
  succeeded_with (some pre) e = (λ h. ground arith, λ h. ground arith)

  -- An action succeeds exactly if the output directories could be made and the process of the
  -- pre-action, if the node has one, and that of the action return 0.
  pub run_unlocked-succeeded :
      ((run_unlocked node made process).progress ≡ BuildProgress.succeeded)
      ↔ ((made ≡ true) × Runs process node.pre_action node.action)
  run_unlocked-succeeded = succeeded_with node.pre_action refl
