-- ===== src/Build/Advance.antt =====
-- AdvanceNode of BuildQueue.cpp, cut where a thread releases the queue's lock. From the point at
-- which a thread has the lock to the point at which it releases it or returns, `advance` makes the
-- rounds of the `for (;;)` loop; CheckInputSignature and RunAction are two rounds each, one on
-- either side of the unlocked part.
pub mod Expensive
pub mod Fuel
use tundra.Prelude.Int.{ℤ, pos, negsuc, incr, decr, is_pos}
use tundra.Build.Node.{BuildProgress, is_blocked, flag_inactive}
use tundra.Build.State.{
  Config, BuildQueue, Wake, data_of, write, wake, all_dependencies_ready, park_expensive_node,
  unpark_expensive_node,
}
use tundra.Build.Dependencies.{setup_dependencies, unblock_waiters}
use tundra.Prelude.{
  ℕ, zero, suc, ◌+◌, Bool, true, false, List, [], ◌∷◌, Option, none, some, if◌then◌else◌, ◌>>=◌,
  ◌>>◌, check,
}

-- How a round ends: the loop goes on, AdvanceNode returns, or the lock is released inside
-- CheckInputSignature or inside RunAction.
pub data Round : Type 0 where
  again returned signing running : Round

abbrev pub set_progress : BuildQueue → ℕ → BuildProgress → BuildQueue
set_progress q i p = write q i (record (q.node_state i) { progress = p })

unfoldable pub is_empty : List ℕ → Bool
is_empty [] = true
is_empty (x ∷ xs) = false

-- `CHECK(queue->m_ExpensiveRunning >= 0)`
unfoldable pub not_negative : ℤ → Bool
not_negative (pos n) = true
not_negative (negsuc n) = false

-- The `for (;;)`: the next round where the loop goes on.
unfoldable pub proceed :
    (BuildQueue → Option (BuildQueue × Round)) → BuildQueue → Round → Option (BuildQueue × Round)
proceed rest q Round.again = rest q
proceed rest q Round.returned = some (q, Round.returned)
proceed rest q Round.signing = some (q, Round.signing)
proceed rest q Round.running = some (q, Round.running)

module _ (c : Config) where
  -- After RunAction has made progress: `--m_ExpensiveRunning`, and another expensive node.
  unfoldable pub release_expensive : BuildQueue → ℕ → Option BuildQueue
  unfolding not_negative
  release_expensive q i =
      if (data_of c i).expensive
      then (do
        let q' = record q { expensive_running = decr q.expensive_running }
        check (not_negative q'.expensive_running)
        unpark_expensive_node c q')
      else some q

  -- RunAction up to MutexUnlock, with the rest of the round where it returns before.
  unfoldable pub start_action : BuildQueue → ℕ → Option (BuildQueue × Round)
  unfolding is_empty release_expensive
  start_action q i =
      if is_empty (data_of c i).action
      then release_expensive (set_progress q i BuildProgress.succeeded) i
        >>= (λ q'. some (q', Round.again))
      else if (data_of c i).expensive
      then if is_pos q.expensive_running c.max_expensive_count
        then park_expensive_node q i >>= (λ q'. some (q', Round.returned))
        else some (record q { expensive_running = incr q.expensive_running }, Round.running)
      else some (q, Round.running)

  unfoldable pub finish : BuildQueue → ℕ → ℕ → BuildQueue
  finish q i result =
      write q i
        (record (q.node_state i) { progress = BuildProgress.completed; build_result = result })

  -- One round of the loop, on the node's progress.
  unfoldable pub round : BuildQueue → ℕ → BuildProgress → Option (BuildQueue × Round)
  unfolding start_action finish
  round q i BuildProgress.initial = do
    (q', p) ← setup_dependencies c q i
    (if is_blocked p
        then some
            (write q' i (flag_inactive (record (q'.node_state i) { progress = p })), Round.returned)
        else some (set_progress q' i p, Round.again))
  round q i BuildProgress.blocked = do
    ready ← all_dependencies_ready c q i
    check ready
    some (set_progress q i BuildProgress.unblocked, Round.again)
  round q i BuildProgress.unblocked = do
    ready ← all_dependencies_ready c q i
    check ready
    some (q, Round.signing)
  round q i BuildProgress.run_action = start_action q i
  round q i BuildProgress.succeeded = some (finish q i 0, Round.again)
  round q i BuildProgress.up_to_date = some (finish q i 0, Round.again)
  round q i BuildProgress.failed =
      let q' = record q { failed_node_count = q.failed_node_count + 1 } in
      some (finish (wake q' Wake.cond_broadcast) i 1, Round.again)
  round q i BuildProgress.completed = do
    q' ← unblock_waiters c (record q { pending_node_count = decr q.pending_node_count }) i
    some (wake q' Wake.cond_broadcast, Round.returned)

  -- The loop until the lock is released; the checks before it are left out, so it may be entered in
  -- more states. No progress comes back in the loop, so a few rounds do.
  unfoldable pub advance : ℕ → BuildQueue → ℕ → Option (BuildQueue × Round)
  unfolding round proceed
  advance zero q i = none
  advance (suc fuel) q i =
      let rest = λ (q' : BuildQueue). advance fuel q' i in
      round q i (q.node_state i).progress >>= (λ (q', r). proceed rest q' r)
