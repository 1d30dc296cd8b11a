-- ===== src/Build/Order/Work.antt =====
-- What it means that threads work on nodes, and what a thread does to the node that it has.
use mathlib.Core.Option.{some-injective, some-ne-none}
use tundra.Build.Node.{BuildProgress, NodeState}
use tundra.Build.State.{Config, BuildQueue, data_of, write}
use tundra.Build.Advance.{Round, set_progress, advance}
use tundra.Build.Frame.{Calm, Frame, Frame-write, Keeps, Frame→Keeps, Completed-mono}
use tundra.Prelude.{
  ℕ, true, false, not, ◌≡◌, ◌≢◌, refl, sym, ap, subst, ◌∙◌, inl, inr, some, ◌==◌, bind-some,
  check-some, Bool-cases, arith,
}
use tundra.Build.Node.{flag_active, flag_unqueued}
use tundra.Build.State.{next_node}
use tundra.Build.Ring.{fetch, available_node_count}
use tundra.Build.Loop.{Phase, System, phase_after, set_thread, rounds, enter}
use tundra.Build.Order.{Ordered, Held, Working, After, RoundOk, own, RoundOk-trans}
use tundra.Build.Order.Rounds.{advance_ok}

-- The thread works on node i.
abbrev pub Holds : Phase → ℕ → Type 0
Holds Phase.idle i = ⊥
Holds (Phase.signing j) i = j ≡ i
Holds (Phase.running j) i = j ≡ i

-- The nodes that threads work on are marked so and have got beyond their dependencies, no two
-- threads work on the same, and what has got beyond its dependencies has them completed.
pub record Good (c : Config) (s : System) : Type 0 where
  pub working : (t i : ℕ) → Holds (s.thread t) i → Working (s.queue.node_state i)
  pub apart : (t u i : ℕ) → Holds (s.thread t) i → Holds (s.thread u) i → t ≡ u
  pub ordered : Ordered c s.queue

phase_after-Holds : (i : ℕ) (r : Round) (k : ℕ) → Holds (phase_after i r) k → i ≡ k
unfolding phase_after
phase_after-Holds i Round.again k h = absurd h
phase_after-Holds i Round.returned k h = absurd h
phase_after-Holds i Round.signing k h = h
phase_after-Holds i Round.running k h = h

phase_after-Working :
    (i : ℕ) (r : Round) (k : ℕ) (s : NodeState) → After r s → Holds (phase_after i r) k → Working s
unfolding phase_after
phase_after-Working i Round.again k s a h = absurd h
phase_after-Working i Round.returned k s a h = absurd h
phase_after-Working i Round.signing k s a h = a
phase_after-Working i Round.running k s a h = a

pub next_node_ok :
    (q : BuildQueue) {r : ℕ × BuildQueue}
    → next_node q ≡ some (some r)
    → Frame q r.1 × ((q.node_state r.0).active ≡ false) × Held (r.1.node_state r.0)
unfolding next_node flag_active flag_unqueued
next_node_ok q {r} h = elim (Bool-cases (available_node_count q.ring == 0)) [
  | inl e ↦ absurd (some-ne-none _ (sym (some-injective _ _ (rw e at h))))
  | inr e ↦
      let h0 = rw e at h in
      let i = (fetch q.ring).0 in
      let s = q.node_state i in
      let (queued, h1) = check-some s.queued h0 in
      let (free, h2) = check-some (not s.active) h1 in
      let inactive : s.active ≡ false = ground arith in
      let s' = flag_active (flag_unqueued s) in
      let calm : Calm s s' = (refl, λ on off. absurd (ground arith)) in
      let taken = record q { ring = (fetch q.ring).1 } in
      let here : (i == i) ≡ true = ground arith in
      let held : Held ((write taken i s').node_state i) = rw here (refl, refl) in
      subst (λ r. Frame q r.1 × ((q.node_state r.0).active ≡ false) × Held (r.1.node_state r.0))
        (some-injective _ _ (some-injective _ _ h2)) (Frame-write taken i s' calm, inactive, held)
]

module _ (c : Config) where
  pub set_thread-Good :
      (s : System) (t i : ℕ) (q : BuildQueue) (r : Round)
      → Good c s
      → ((u k : ℕ) → t ≢ u → Holds (s.thread u) k → i ≢ k)
      → RoundOk c s.queue i q r
      → Good c (set_thread s t q (phase_after i r))
  set_thread-Good s t i q r good free ok = record {
    working = λ u k h. elim (Bool-cases (t == u)) [
      | inl e ↦
          let h' = rw e at h in
          let same = phase_after-Holds i r k h' in
          subst (λ k. Working (q.node_state k)) same
            (phase_after-Working i r k (q.node_state i) ok.after h')
      | inr e ↦
          let h' : Holds (s.thread u) k = rw e at h in
          let w = good.working u k h' in
          let same = (ok.others k (free u k (ground arith) h')).1 w.0.0 w.0.1 in
          subst Working (sym same) w
    ];
    apart = λ u w k hu hw. elim (Bool-cases (t == u)) [
      | inl e ↦ elim (Bool-cases (t == w)) [
        | inl f ↦ ground arith
        | inr f ↦
            absurd (free w k (ground arith) (rw f at hw) (phase_after-Holds i r k (rw e at hu)))
      ]
      | inr e ↦ elim (Bool-cases (t == w)) [
        | inl f ↦
            absurd (free u k (ground arith) (rw e at hu) (phase_after-Holds i r k (rw f at hw)))
        | inr f ↦ good.apart u w k (rw e at hu) (rw f at hw)
      ]
    ];
    ordered = ok.ordered;
  }

  pub enter_ok :
      (s : System) (t i : ℕ) (q : BuildQueue) {s' : System}
      → Good c s
      → ((u k : ℕ) → t ≢ u → Holds (s.thread u) k → i ≢ k)
      → RoundOk c s.queue i q Round.again
      → enter c s t i q ≡ some s'
      → Good c s' × Keeps s.queue s'.queue
  unfolding enter
  enter_ok s t i q {s'} good free ok h =
      let (v, e, h1) = bind-some (advance c rounds q i) h in
      let all =
        RoundOk-trans c s.queue q v.0 i v.1 ok
          (advance_ok c rounds q i {v = v} ok.after ok.ordered e) in
      subst (λ s'. Good c s' × Keeps s.queue s'.queue) (some-injective _ _ h1)
        (set_thread-Good s t i v.0 v.1 good free all, all.keeps)

  -- What a thread that works on node i writes to it before it goes on in the loop.
  pub write_ok :
      (s : System) (t i : ℕ) (q1 : BuildQueue) (p : BuildProgress)
      → Good c s
      → Holds (s.thread t) i
      → Frame s.queue q1
      → RoundOk c s.queue i (set_progress q1 i p) Round.again
  write_ok s t i q1 p good h f =
      let w = good.working t i h in
      let same = (f i).1 w.0.0 w.0.1 in
      let s1 = record (q1.node_state i) { progress = p } in
      let after : Held s1 = (ap (λ s. s.active) same ∙ w.0.0, ap (λ s. s.queued) same ∙ w.0.1) in
      let ds =
        Completed-mono c s.queue q1 (Frame→Keeps s.queue q1 f) (data_of c i).dependencies
          (good.ordered i w.2) in
      own c s.queue q1 i s1 Round.again f w.1 (λ n. ds) after good.ordered
