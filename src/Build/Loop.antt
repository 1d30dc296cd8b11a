-- ===== src/Build/Loop.antt =====
-- BuildLoop, ShouldKeepBuilding, BuildQueueInit and BuildQueueBuildNodeRange of BuildQueue.cpp: the
-- threads that share the queue. A step is what one thread does between taking the lock and
-- releasing it, so any order of steps is a schedule of the threads.
use tundra.Prelude.Int.{ℤ, pos, negsuc}
use tundra.Build.Node.{BuildProgress, flag_queued}
use tundra.Build.State.{Config, BuildQueue, Wake, write, wake, next_node}
use tundra.Build.Actions.{Outcome}
use tundra.Build.Advance.{Round, set_progress, release_expensive, advance}
use tundra.Prelude.{
  ℕ, zero, suc, ◌+◌, Bool, true, false, not, ◌&&◌, ◌||◌, List, [], ◌∷◌, Option, none, some,
  if◌then◌else◌, ltb, leb, ◌==◌, set, ◌>>=◌, ◌>>◌, check,
}

-- Where a thread stands while it does not hold the lock: in BuildLoop, or inside CheckInputSignature
-- or RunAction for a node.
pub data Phase : Type 0 where
  idle : Phase
  signing running : ℕ → Phase

pub record System : Type 0 where
  pub queue : BuildQueue
  pub thread : ℕ → Phase

-- What a thread does next; the outside world decides how a signature check and an action end.
pub data Event : Type 0 where
  pick : Event
  checked : BuildProgress → Event
  ran : Outcome → Event

unfoldable pub positive : ℤ → Bool
positive (pos n) = ltb 0 n
positive (negsuc n) = false

-- ShouldKeepBuilding
unfoldable pub should_keep_building : Config → BuildQueue → ℕ → Bool
unfolding positive
should_keep_building c q thread_index =
    if q.signalled
    then false
    else if ltb 0 q.failed_node_count && not c.continue_on_error
    then false
    else if q.quit_signalled
    then false
    else if not (thread_index == 0)
    then true
    else positive q.pending_node_count

-- The thread's phase after a round that gave up the lock.
unfoldable pub phase_after : ℕ → Round → Phase
phase_after i Round.signing = Phase.signing i
phase_after i Round.running = Phase.running i
phase_after i _ = Phase.idle

abbrev pub set_thread : System → ℕ → BuildQueue → Phase → System
set_thread s t q p = record { queue = q; thread = λ u. if t == u then p else s.thread u }

-- More rounds than AdvanceNode makes between two points where it gives up the lock.
abbrev pub rounds : ℕ
rounds = 6

module _ (c : Config) where
  unfoldable pub enter : System → ℕ → ℕ → BuildQueue → Option System
  unfolding phase_after
  enter s t i q = do (q', r) ← advance c rounds q i; some (set_thread s t q' (phase_after i r))

  -- What NextNode has found, if it has; else the thread waits.
  unfoldable pub picked : System → ℕ → Option (ℕ × BuildQueue) → Option System
  unfolding enter
  picked s t none = some s
  picked s t (some (i, q)) = enter s t i q

  -- The end of RunAction, from MutexLock on, and of its round.
  unfoldable pub after_action : BuildQueue → ℕ → Outcome → Option BuildQueue
  after_action q i outcome =
      release_expensive c
        (set_progress (record q { signalled = q.signalled || outcome.was_signalled }) i
          outcome.progress)
        i

  -- One thread's turn. A thread that finds no node waits, and a turn that does not fit the thread's
  -- phase is none.
  unfoldable pub turn : System → ℕ → Phase → Event → Option System
  unfolding enter picked after_action
  turn s t Phase.idle Event.pick =
      if should_keep_building c s.queue t then next_node s.queue >>= picked s t else some s
  turn s t (Phase.signing i) (Event.checked p) = enter s t i (set_progress s.queue i p)
  turn s t (Phase.running i) (Event.ran outcome) =
      after_action s.queue i outcome >>= (λ q. enter s t i q)
  turn s t _ _ = some s

  unfoldable pub step : System → ℕ × Event → Option System
  unfolding turn
  step s (t, e) = turn s t (s.thread t) e

  unfoldable pub run : System → List (ℕ × Event) → Option System
  unfolding step
  run s [] = some s
  run s (e ∷ es) = step s e >>= (λ s'. run s' es)

unfoldable pub is_initial : BuildProgress → Bool
is_initial BuildProgress.initial = true
is_initial _ = false

-- The loop of BuildQueueBuildNodeRange over the nodes that are left.
unfoldable pub queue_range : ℕ → ℕ → ℕ → BuildQueue → Option BuildQueue
unfolding is_initial
queue_range zero start i q = some q
queue_range (suc n) start i q = do
  let state = q.node_state (start + i)
  check (is_initial state.progress)
  queue_range n start (i + 1) (
      write (record q { ring = record (q.ring) { queue = set q.ring.queue i (start + i) } })
        (start + i) (flag_queued state))

-- BuildQueueBuildNodeRange up to its BuildLoop.
unfoldable pub start_pass : Config → ℕ → ℕ → ℕ → BuildQueue → Option BuildQueue
unfolding queue_range
start_pass c start count pass q = do
  check (leb (start + count) c.max_nodes)
  q' ← queue_range count start 0 (record q { current_pass_index = pass })
  some (
      wake
        (record q' {
          pending_node_count = pos count;
          failed_node_count = 0;
          ring = record (q'.ring) { write_index = count; read_index = 0 };
        })
        Wake.cond_broadcast)

pub data BuildResult : Type 0 where
  ok interrupted build_error : BuildResult

-- The end of BuildQueueBuildNodeRange.
unfoldable pub build_result : BuildQueue → BuildResult
build_result q =
    if q.signalled
    then BuildResult.interrupted
    else if ltb 0 q.failed_node_count
    then BuildResult.build_error
    else BuildResult.ok

-- BuildQueueDestroy: the worker threads are told to stop.
unfoldable pub signal_quit : BuildQueue → BuildQueue
signal_quit q = wake (record q { quit_signalled = true }) Wake.cond_broadcast
