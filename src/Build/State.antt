-- ===== src/Build/State.antt =====
-- The state of BuildQueue (BuildQueue.hpp) and the functions of BuildQueue.cpp that put a node on
-- the queue, take it off, or park it. A function that reaches a failing CHECK has no result.
use tundra.Prelude.Int.{ℤ}
use tundra.Build.Ring.{Ring, available_node_count, put, fetch}
use tundra.Build.Node.{
  NodeData, NodeState, is_completed, flag_queued, flag_unqueued, flag_active, flag_inactive,
}
use tundra.Prelude.{
  ℕ, ◌+◌, Bool, true, false, not, List, [], ◌∷◌, Option, none, some, if◌then◌else◌, ltb, ◌==◌,
  length, ◌>>=◌, ◌>>◌, check,
}

-- BuildQueueConfig, and the m_MmapData of each state, as an index of m_NodeData. The remapping
-- table gives -1, here `none`, for a node that is not part of this build.
pub record Config : Type 0 where
  pub max_nodes : ℕ
  pub node_data : ℕ → NodeData
  pub source : ℕ → ℕ
  pub node_remapping_table : ℕ → Option ℕ
  pub continue_on_error : Bool
  pub max_expensive_count : ℕ
  pub thread_count : ℕ

-- CondSignal and CondBroadcast on m_WorkAvailable.
pub data Wake : Type 0 where
  cond_signal cond_broadcast : Wake

-- m_ExpensiveWaitList with its count is `expensive_wait_list`, the entry put last first.
-- `signalled` is SignalGetReason() != nullptr; `wakes` is what was done to m_WorkAvailable, the
-- latest first.
pub record BuildQueue : Type 0 where
  pub ring : Ring
  pub node_state : ℕ → NodeState
  pub pending_node_count : ℤ
  pub failed_node_count : ℕ
  pub current_pass_index : ℕ
  pub expensive_running : ℤ
  pub expensive_wait_list : List ℕ
  pub quit_signalled : Bool
  pub signalled : Bool
  pub wakes : List Wake

-- A write through a NodeState pointer.
abbrev pub update : (ℕ → NodeState) → ℕ → NodeState → ℕ → NodeState
update f i s j = if i == j then s else f j

abbrev pub write : BuildQueue → ℕ → NodeState → BuildQueue
write q i s = record q { node_state = update q.node_state i s }

abbrev pub wake : BuildQueue → Wake → BuildQueue
wake q w = record q { wakes = w ∷ q.wakes }

unfoldable pub wake_waiters : BuildQueue → ℕ → BuildQueue
wake_waiters q count = wake q (if ltb 1 count then Wake.cond_broadcast else Wake.cond_signal)

unfoldable pub park_expensive_node : BuildQueue → ℕ → Option BuildQueue
park_expensive_node q i = do
  check (ltb (length q.expensive_wait_list) q.ring.capacity)
  some (
      write (record q { expensive_wait_list = i ∷ q.expensive_wait_list }) i
        (flag_queued (q.node_state i)))

-- NextNode: no result but the queue where no node is available.
unfoldable pub next_node : BuildQueue → Option (Option (ℕ × BuildQueue))
next_node q = if available_node_count q.ring == 0 then some none else do
  let (i, ring) = fetch q.ring
  check (q.node_state i).queued
  check (not (q.node_state i).active)
  some (some (i, write (record q { ring = ring }) i (flag_active (flag_unqueued (q.node_state i)))))

module _ (c : Config) where
  -- The NodeData of a state.
  abbrev pub data_of : ℕ → NodeData
  data_of i = c.node_data (c.source i)

  -- `some none` for a node that is not in the build.
  unfoldable pub get_state_for_node : ℕ → Option (Option ℕ)
  get_state_for_node src_index = elim (c.node_remapping_table src_index) [
    | none ↦ some none
    | some i ↦ check (c.source i == src_index) >> some (some i)
  ]

  -- The same, under `CHECK(state != nullptr)`.
  unfoldable pub get_dependency_state : ℕ → Option ℕ
  unfolding get_state_for_node
  get_dependency_state src_index = get_state_for_node src_index >>= λ s. s

  unfoldable pub dependencies_ready : BuildQueue → List ℕ → Option Bool
  dependencies_ready q [] = some true
  dependencies_ready q (dep ∷ deps) = do
    i ← get_dependency_state dep
    if is_completed (q.node_state i).progress then dependencies_ready q deps else some false

  unfoldable pub all_dependencies_ready : BuildQueue → ℕ → Option Bool
  unfolding dependencies_ready
  all_dependencies_ready q i = dependencies_ready q (data_of i).dependencies

  unfoldable pub enqueue : BuildQueue → ℕ → Option BuildQueue
  enqueue q i = do
    ready ← all_dependencies_ready q i
    check ready
    check (not (q.node_state i).queued)
    check (not (q.node_state i).active)
    check (not (is_completed (q.node_state i).progress))
    check ((data_of i).pass_index == q.current_pass_index)
    let ring = put q.ring i
    check (available_node_count ring == 1 + available_node_count q.ring)
    some (write (record q { ring = ring }) i (flag_queued (q.node_state i)))

  -- The entry that was put last is taken first.
  unfoldable pub unpark : BuildQueue → List ℕ → Option BuildQueue
  unpark q [] = some q
  unpark q (i ∷ rest) = do
    check (q.node_state i).queued
    let unflagged = flag_inactive (flag_unqueued (q.node_state i))
    q' ← enqueue (write (record q { expensive_wait_list = rest }) i unflagged) i
    some (wake q' Wake.cond_signal)

  unfoldable pub unpark_expensive_node : BuildQueue → Option BuildQueue
  unfolding unpark
  unpark_expensive_node q = unpark q q.expensive_wait_list
