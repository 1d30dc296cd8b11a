-- ===== src/Build/Dependencies.antt =====
-- SetupDependencies and UnblockWaiters of BuildQueue.cpp: the two loops over the links of a node.
pub mod Ready
use tundra.Build.Node.{BuildProgress, is_completed, is_blocked}
use tundra.Build.State.{
  Config, BuildQueue, data_of, get_state_for_node, get_dependency_state, all_dependencies_ready,
  wake_waiters, enqueue,
}
use tundra.Prelude.{
  ℕ, ◌+◌, not, ◌&&◌, ◌||◌, List, [], ◌∷◌, Option, none, some, if◌then◌else◌, ltb, leb, ◌==◌, ◌>>=◌,
  ◌>>◌, check,
}

module _ (c : Config) where
  -- One round of the loop of SetupDependencies, on the state of a dependency, with the queue,
  -- dep_waits_needed and enqueue_count.
  unfoldable pub visit : BuildQueue → ℕ → ℕ → ℕ → Option (BuildQueue × ℕ × ℕ)
  visit q i waits enqueued =
      let state = q.node_state i in
      let fresh = not state.queued && not state.active && not (is_blocked state.progress) in
      if is_completed state.progress
      then some (q, waits, enqueued)
      else if fresh
      then enqueue c q i >>= (λ q'. some (q', waits + 1, enqueued + 1))
      else some (q, waits + 1, enqueued)

  -- The loop, over the dependencies that are left.
  unfoldable pub setup_loop : ℕ → List ℕ → BuildQueue → ℕ → ℕ → Option (BuildQueue × ℕ × ℕ)
  unfolding visit
  setup_loop pass [] q waits enqueued = some (q, waits, enqueued)
  setup_loop pass (dep ∷ deps) q waits enqueued = do
    i ← get_dependency_state c dep
    check (leb (data_of c i).pass_index pass)
    (q', w, e) ← visit q i waits enqueued
    setup_loop pass deps q' w e

  unfoldable pub setup_dependencies : BuildQueue → ℕ → Option (BuildQueue × BuildProgress)
  unfolding setup_loop
  setup_dependencies q i = do
    (q', waits, enqueued) ← setup_loop (data_of c i).pass_index (data_of c i).dependencies q 0 0
    let q'' = if ltb 0 enqueued then wake_waiters q' enqueued else q'
    some (q'', if ltb 0 waits then BuildProgress.blocked else BuildProgress.unblocked)

  -- One round of the loop of UnblockWaiters, on the state of a waiter if it is in the build.
  unfoldable pub unblock : BuildQueue → Option ℕ → ℕ → Option (BuildQueue × ℕ)
  unblock q none count = some (q, count)
  unblock q (some waiter) count =
      if not ((data_of c waiter).pass_index == q.current_pass_index) then some (q, count) else do
        ready ← all_dependencies_ready c q waiter
        (if not ready
            then some (q, count)
            else if (q.node_state waiter).queued || (q.node_state waiter).active
            then some (q, count)
            else enqueue c q waiter >>= (λ q'. some (q', count + 1)))

  unfoldable pub unblock_loop : List ℕ → BuildQueue → ℕ → Option (BuildQueue × ℕ)
  unfolding unblock
  unblock_loop [] q count = some (q, count)
  unblock_loop (link ∷ links) q count = do
    waiter ← get_state_for_node c link
    (q', n) ← unblock q waiter count
    unblock_loop links q' n

  unfoldable pub unblock_waiters : BuildQueue → ℕ → Option BuildQueue
  unfolding unblock_loop
  unblock_waiters q i = do
    (q', count) ← unblock_loop (data_of c i).back_links q 0
    some (if ltb 0 count then wake_waiters q' count else q')
