-- ===== src/Tests/OfBuild.antt =====
-- A build of two nodes, the second of which depends on the first.
use tundra.Prelude.Int.{pos}
use tundra.Build.Node.{NodeData, BuildProgress}
use tundra.Build.State.{Config, BuildQueue}
use tundra.Build.Actions.{ExecResult, PreviousState, next_after_check, run_unlocked}
use tundra.Build.Actions.Decision.{next_after_check-up_to_date, AllExist}
use tundra.Build.Actions.Outcomes.{run_unlocked-succeeded}
use tundra.Build.Advance.{advance}
use tundra.Build.Advance.Expensive.{advance-expensive_without_action}
use tundra.Prelude.{
  ℕ, ◌≡◌, ◌↔◌, refl, Bool, true, false, List, [], ◌∷◌, Option, none, some, if◌then◌else◌, ltb,
}

-- An expensive node without a command line, and the node that needs it.
abbrev node : ℕ → NodeData
node i = record {
  action = if ltb 0 i then b'c' ∷ b'c' ∷ [] else [];
  pre_action = none;
  pass_index = 0;
  dependencies = if ltb 0 i then 0 ∷ [] else [];
  back_links = if ltb 0 i then [] else 1 ∷ [];
  overwrite_outputs = false;
  precious_outputs = false;
  expensive = true;
}

abbrev config : Config
config = record {
  max_nodes = 2;
  node_data = node;
  source = λ i. i;
  node_remapping_table = λ i. some i;
  continue_on_error = false;
  max_expensive_count = 1;
  thread_count = 2;
}

abbrev queue : BuildQueue
queue = record {
  ring = record { queue = 0 ∷ 1 ∷ 0 ∷ 0 ∷ []; capacity = 4; read_index = 2; write_index = 2 };
  node_state = λ i. record {
    queued = false;
    active = true;
    progress = if ltb 0 i then BuildProgress.blocked else BuildProgress.run_action;
    build_result = 0;
  };
  pending_node_count = pos 2;
  failed_node_count = 0;
  current_pass_index = 0;
  expensive_running = pos 0;
  expensive_wait_list = [];
  quit_signalled = false;
  signalled = false;
  wakes = [];
}

advance-expensive_without_action_example : advance config 6 queue 0 ≡ none
advance-expensive_without_action_example =
    advance-expensive_without_action config queue 0 5 refl refl refl refl

abbrev completed_queue : BuildQueue
completed_queue = record queue {
  node_state = λ i. record (queue.node_state i) { progress = BuildProgress.completed };
}

abbrev output : List (List ℕ)
output = (b'o' ∷ []) ∷ []

abbrev previous : Option (PreviousState ℕ)
previous = some (record { input_signature = 7; build_result = 0; output_files = output })

next_after_check-up_to_date_example :
    (next_after_check (λ a b. ltb a 8) (λ f. true) previous 7 output ≡ BuildProgress.up_to_date) ↔ (
      (p : PreviousState ℕ) × (previous ≡ some p)
      × (ltb p.input_signature 8 ≡ true)
      × (p.build_result ≡ 0)
      × (output ≡ p.output_files)
      × AllExist (λ f. true) output)
next_after_check-up_to_date_example =
    next_after_check-up_to_date (λ a b. ltb a 8) (λ f. true) previous 7 output

abbrev failing : List ℕ → ExecResult
failing command = record { return_code = 1; was_signalled = false }

run_unlocked-succeeded_example :
    ((run_unlocked (node 1) true failing).progress ≡ BuildProgress.succeeded)
    ↔ ((◌≡◌ {A = Bool} true true) × (◌≡◌ {A = ℕ} 1 0))
run_unlocked-succeeded_example = run_unlocked-succeeded (node 1) true failing
