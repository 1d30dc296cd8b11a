-- ===== src/Build/Order/Pass.antt =====
-- A pass of the build: BuildQueueBuildNodeRange puts nodes on the queue, and the threads take their
-- turns in any order.
use mathlib.Core.Option.{some-injective}
use tundra.Build.Node.{BuildProgress, is_completed, flag_queued}
use tundra.Build.State.{Config, BuildQueue, data_of, write}
use tundra.Build.Dependencies.Ready.{Completed}
use tundra.Build.Frame.{Keeps, Completed-mono}
use tundra.Build.Loop.{Phase, System, Event, is_initial, queue_range, start_pass, run}
use tundra.Build.Order.{past, Ordered}
use tundra.Build.Order.Work.{Good, Holds}
use tundra.Build.Order.Schedule.{run-Good}
use tundra.Prelude.{
  ℕ, zero, suc, ◌+◌, false, ◌≡◌, refl, sym, ap, subst, ◌∙◌, inl, inr, List, some, leb, ◌==◌, set,
  bind-some, check-some, Bool-cases, arith,
}

-- The progress of every node is the same.
abbrev Still : BuildQueue → BuildQueue → Type 0
Still q q' = (j : ℕ) → (q'.node_state j).progress ≡ (q.node_state j).progress

queue_range-Still :
    (n start i : ℕ) (q : BuildQueue) {q' : BuildQueue}
    → queue_range n start i q ≡ some q'
    → Still q q'
unfolding queue_range flag_queued
queue_range-Still zero start i q h = subst (Still q) (some-injective _ _ h) (λ j. refl)
queue_range-Still (suc n) start i q {q'} h =
    let state = q.node_state (start + i) in
    let (fresh, h1) = check-some (is_initial state.progress) h in
    let q1 =
      write (record q { ring = record (q.ring) { queue = set q.ring.queue i (start + i) } })
        (start + i) (flag_queued state) in
    let rest = queue_range-Still n start (i + 1) q1 {q' = q'} h1 in
    λ j. rest j ∙ elim (Bool-cases ((start + i) == j)) [
      | inl e ↦
          let same : start + i ≡ j = ground arith in rw e (ap (λ k. (q.node_state k).progress) same)
      | inr e ↦ rw e refl
    ]

start_pass-Still :
    (c : Config) (start count pass : ℕ) (q : BuildQueue) {q' : BuildQueue}
    → start_pass c start count pass q ≡ some q'
    → Still q q'
unfolding start_pass
start_pass-Still c start count pass q h =
    let (room, h1) = check-some (leb (start + count) c.max_nodes) h in
    let q0 = record q { current_pass_index = pass } in
    let (q1, e, h2) = bind-some (queue_range count start 0 q0) h1 in
    subst (Still q) (some-injective _ _ h2) (queue_range-Still count start 0 q0 e)

Ordered-Still : (c : Config) (q q' : BuildQueue) → Still q q' → Ordered c q → Ordered c q'
Ordered-Still c q q' s o j p =
    Completed-mono c q q' (λ k d. ap is_completed (s k) ∙ d) (data_of c j).dependencies
      (o j (sym (ap past (s j)) ∙ p))

module _ (c : Config) (s : System) (start count pass : ℕ) (q : BuildQueue) (es : List (ℕ × Event))
    (s' : System) where
  pass-Good :
      ((t : ℕ) → s.thread t ≡ Phase.idle)
      → Ordered c s.queue
      → start_pass c start count pass s.queue ≡ some q
      → run c (record s { queue = q }) es ≡ some s'
      → Good c s' × Keeps q s'.queue
  pass-Good idle o started ran =
      run-Good c (record s { queue = q }) es
        (record {
          working = λ t i h. absurd (subst (λ p. Holds p i) (idle t) h);
          apart = λ t u i h k. absurd (subst (λ p. Holds p i) (idle t) h);
          ordered =
              Ordered-Still c s.queue q (start_pass-Still c start count pass s.queue started) o;
        })
        ran

  -- In a pass that starts while no thread is at work and each node that has got beyond its
  -- dependencies has them completed, after any turns of the threads in which no check fails: while a
  -- thread is inside CheckInputSignature or RunAction for a node, all dependencies of the node are
  -- completed, and the node is not.
  pub run-Completed :
      ((t : ℕ) → s.thread t ≡ Phase.idle)
      → Ordered c s.queue
      → start_pass c start count pass s.queue ≡ some q
      → run c (record s { queue = q }) es ≡ some s'
      → (t i : ℕ) → Holds (s'.thread t) i
      → Completed c s'.queue (data_of c i).dependencies
        × (is_completed (s'.queue.node_state i).progress ≡ false)
  run-Completed idle o started ran t i h =
      let good = (pass-Good idle o started ran).0 in
      let w = good.working t i h in (good.ordered i w.2, w.1)

  -- In a pass that starts while no thread is at work and each node that has got beyond its
  -- dependencies has them completed, after any turns of the threads in which no check fails, no
  -- two threads are inside CheckInputSignature or RunAction for the same node.
  pub run_apart :
      ((t : ℕ) → s.thread t ≡ Phase.idle)
      → Ordered c s.queue
      → start_pass c start count pass s.queue ≡ some q
      → run c (record s { queue = q }) es ≡ some s'
      → (t u i : ℕ) → Holds (s'.thread t) i
      → Holds (s'.thread u) i
      → t ≡ u
  run_apart idle o started ran = (pass-Good idle o started ran).0.apart

  -- In a pass that starts while no thread is at work and each node that has got beyond its
  -- dependencies has them completed, after any turns of the threads in which no check fails, a
  -- completed node has all its dependencies completed, and the nodes that were completed when it
  -- started still are.
  pub run-Ordered :
      ((t : ℕ) → s.thread t ≡ Phase.idle)
      → Ordered c s.queue
      → start_pass c start count pass s.queue ≡ some q
      → run c (record s { queue = q }) es ≡ some s'
      → ((i : ℕ)
          → (s'.queue.node_state i).progress ≡ BuildProgress.completed
          → Completed c s'.queue (data_of c i).dependencies)
        × Keeps q s'.queue
  run-Ordered idle o started ran =
      let good = pass-Good idle o started ran in (λ i e. good.0.ordered i (ap past e), good.1)
