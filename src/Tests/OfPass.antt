-- ===== src/Tests/OfPass.antt =====
-- A pass over two nodes, the second of which depends on the first: one thread builds the first
-- while the other finds the second blocked, and takes it up when the first is completed.
use tundra.Prelude.Int.{pos}
use tundra.Build.Node.{
  NodeData, BuildProgress, is_completed, is_blocked, flag_active, flag_inactive, flag_queued,
  flag_unqueued,
}
use tundra.Build.Ring.{available_node_count, next_index, put, fetch}
use tundra.Build.Advance.{
  advance, round, proceed, start_action, release_expensive, finish, is_empty, not_negative,
}
use tundra.Build.Dependencies.{
  setup_dependencies, setup_loop, visit, unblock_waiters, unblock_loop, unblock,
}
use tundra.Build.State.{
  Config, BuildQueue, get_dependency_state, get_state_for_node, data_of, next_node, enqueue, unpark,
  unpark_expensive_node, park_expensive_node, all_dependencies_ready, dependencies_ready,
  wake_waiters,
}
use tundra.Build.Actions.{Outcome}
use tundra.Build.Dependencies.Ready.{Completed}
use tundra.Build.Frame.{Keeps}
use tundra.Build.Loop.{
  Phase, System, Event, start_pass, run, step, turn, enter, picked, after_action,
  should_keep_building, positive, phase_after, queue_range, is_initial,
}
use tundra.Build.Advance.Fuel.{Ends, advance-Ends}
use tundra.Build.Order.{Ordered}
use tundra.Build.Order.Work.{Holds}
use tundra.Build.Order.Pass.{run-Completed, run_apart, run-Ordered}
use tundra.Prelude.{
  ℕ, ◌≡◌, refl, true, false, List, [], ◌∷◌, ◌+◌, Option, none, some, if◌then◌else◌, ltb, arith,
}

abbrev node : ℕ → NodeData
node i = record {
  action = b'c' ∷ [];
  pre_action = none;
  pass_index = 0;
  dependencies = if ltb 0 i then 0 ∷ [] else [];
  back_links = if ltb 0 i then [] else 1 ∷ [];
  overwrite_outputs = false;
  precious_outputs = false;
  expensive = true;
}

abbrev config : Config
config = record {
  max_nodes = 2;
  node_data = node;
  source = λ i. i;
  node_remapping_table = λ i. some i;
  continue_on_error = false;
  max_expensive_count = 1;
  thread_count = 2;
}

abbrev before : BuildQueue
before = record {
  ring = record { queue = 0 ∷ 0 ∷ 0 ∷ 0 ∷ []; capacity = 4; read_index = 0; write_index = 0 };
  node_state = λ i. record {
    queued = false;
    active = false;
    progress = BuildProgress.initial;
    build_result = 0;
  };
  pending_node_count = pos 0;
  failed_node_count = 0;
  current_pass_index = 0;
  expensive_running = pos 0;
  expensive_wait_list = [];
  quit_signalled = false;
  signalled = false;
  wakes = [];
}

abbrev idle_system : System
idle_system = record { queue = before; thread = λ t. Phase.idle }

abbrev or_else {ℓ} : {A : Type ℓ} → A → Option A → A
or_else d none = d
or_else d (some a) = a

abbrev good_outcome : Outcome
good_outcome = record { progress = BuildProgress.succeeded; was_signalled = false; effects = [] }

abbrev schedule : List (ℕ × Event)
schedule =
    (0, Event.pick)
    ∷ (1, Event.pick)
    ∷ (0, Event.checked BuildProgress.run_action)
    ∷ (0, Event.ran good_outcome)
    ∷ (1, Event.pick)
    ∷ []

abbrev started : BuildQueue
started = or_else before (start_pass config 0 2 0 before)

abbrev ended : System
ended = or_else idle_system (run config (record idle_system { queue = started }) schedule)

starts : start_pass config 0 2 0 before ≡ some started
unfolding start_pass
starts = refl

runs : run config (record idle_system { queue = started }) schedule ≡ some ended
unfolding start_pass run step turn enter picked after_action advance round proceed start_action
    release_expensive finish should_keep_building positive phase_after next_node fetch put
    next_index available_node_count setup_dependencies setup_loop visit unblock_waiters unblock_loop
    unblock enqueue unpark all_dependencies_ready dependencies_ready get_dependency_state
    get_state_for_node is_completed is_blocked is_empty flag_active flag_inactive flag_queued
    flag_unqueued wake_waiters queue_range is_initial not_negative unpark_expensive_node
    park_expensive_node
runs = refl

holds : Holds (ended.thread 1) 1
unfolding start_pass run step turn enter picked after_action advance round proceed start_action
    release_expensive finish should_keep_building positive phase_after next_node fetch put
    next_index available_node_count setup_dependencies setup_loop visit unblock_waiters unblock_loop
    unblock enqueue unpark all_dependencies_ready dependencies_ready get_dependency_state
    get_state_for_node is_completed is_blocked is_empty flag_active flag_inactive flag_queued
    flag_unqueued wake_waiters queue_range is_initial not_negative unpark_expensive_node
    park_expensive_node
holds = refl

ordered : Ordered config before
ordered j p = absurd (ground arith)

run-Completed_example :
    Completed config ended.queue (data_of config 1).dependencies
    × (is_completed (ended.queue.node_state 1).progress ≡ false)
run-Completed_example =
    run-Completed config idle_system 0 2 0 started schedule ended (λ t. refl) ordered starts runs 1
      1 holds

run_apart_example : ◌≡◌ {A = ℕ} 1 1
run_apart_example =
    run_apart config idle_system 0 2 0 started schedule ended (λ t. refl) ordered starts runs 1 1 1
      holds holds

run-Ordered_example :
    ((i : ℕ)
      → (ended.queue.node_state i).progress ≡ BuildProgress.completed
      → Completed config ended.queue (data_of config i).dependencies)
    × Keeps started ended.queue
run-Ordered_example =
    run-Ordered config idle_system 0 2 0 started schedule ended (λ t. refl) ordered starts runs

advance-Ends_example : Ends config 0 3 started (advance config (3 + 3) started 0)
advance-Ends_example = advance-Ends config 3 started 0
