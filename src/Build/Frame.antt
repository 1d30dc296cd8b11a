-- ===== src/Build/Frame.antt =====
-- What the functions that move other nodes leave alone: the progress of every node, and all of the
-- state of a node that a thread works on, which is active and not queued.
pub mod Links
use mathlib.Core.Option.{some-injective}
use tundra.Build.Node.{
  BuildProgress, NodeState, flag_queued, flag_unqueued, flag_inactive, is_completed, is_blocked,
}
use tundra.Build.State.{
  Config, BuildQueue, Wake, data_of, update, write, wake, enqueue, unpark, unpark_expensive_node,
  all_dependencies_ready, get_state_for_node, get_dependency_state, wake_waiters,
}
use tundra.Build.Ring.{put, available_node_count}
use tundra.Build.Dependencies.Ready.{Completed}
use tundra.Build.Dependencies.{
  visit, setup_loop, setup_dependencies, unblock, unblock_loop, unblock_waiters,
}
use tundra.Build.Advance.{release_expensive, not_negative}
use tundra.Prelude.Int.{decr}
use tundra.Prelude.{
  ℕ, zero, suc, ◌+◌, ◌≤◌, ◌<◌, Bool, true, false, not, ◌&&◌, ◌||◌, ◌≡◌, ◌≢◌, refl, sym, ap, subst,
  ◌∙◌, inl, inr, ◌⊎◌, List, [], ◌∷◌, Option, none, some, if◌then◌else◌, ltb, ◌==◌, leb, ◌>>=◌, ◌>>◌,
  check, bind-some, check-some, Bool-cases, Option-cases, arith,
}

abbrev pub Calm : NodeState → NodeState → Type 0
Calm a b = (b.progress ≡ a.progress) × (a.active ≡ true → a.queued ≡ false → b ≡ a)

abbrev pub Frame : BuildQueue → BuildQueue → Type 0
Frame q q' = (j : ℕ) → Calm (q.node_state j) (q'.node_state j)

pub Frame-refl : (q : BuildQueue) → Frame q q
Frame-refl q j = (refl, λ a n. refl)

pub Calm-trans : (a b d : NodeState) → Calm a b → Calm b d → Calm a d
Calm-trans a b d f g = (
  g.0 ∙ f.0,
  λ on off. let e = f.1 on off in g.1 (ap (λ s. s.active) e ∙ on) (ap (λ s. s.queued) e ∙ off) ∙ e,
)

pub Frame-trans : (p q r : BuildQueue) → Frame p q → Frame q r → Frame p r
Frame-trans p q r f g j = Calm-trans (p.node_state j) (q.node_state j) (r.node_state j) (f j) (g j)

pub Frame-write :
    (q : BuildQueue) (i : ℕ) (s : NodeState) → Calm (q.node_state i) s → Frame q (write q i s)
Frame-write q i s c j = elim (Bool-cases (i == j)) [
  | inl e ↦ let same : i ≡ j = ground arith in rw e (subst (λ k. Calm (q.node_state k) s) same c)
  | inr e ↦ rw e (refl, λ a n. refl)
]

-- Nodes that are completed stay so.
abbrev pub Keeps : BuildQueue → BuildQueue → Type 0
Keeps q q' =
    (j : ℕ)
    → is_completed (q.node_state j).progress ≡ true
    → is_completed (q'.node_state j).progress ≡ true

pub Frame→Keeps : (q q' : BuildQueue) → Frame q q' → Keeps q q'
Frame→Keeps q q' f j d = ap is_completed (f j).0 ∙ d

module _ (c : Config) where
  pub Completed-mono :
      (q q' : BuildQueue) → Keeps q q' → (deps : List ℕ) → Completed c q deps → Completed c q' deps
  Completed-mono q q' k [] d = tt
  Completed-mono q q' k (dep ∷ deps) ((i, e, d), ds) =
      ((i, e, k i d), Completed-mono q q' k deps ds)

  pub enqueue-Frame :
      (q : BuildQueue) (i : ℕ) {q' : BuildQueue} → enqueue c q i ≡ some q' → Frame q q'
  unfolding enqueue flag_queued
  enqueue-Frame q i {q'} h =
      let s = q.node_state i in
      let (ready, e1, h1) = bind-some (all_dependencies_ready c q i) h in
      let (r, h2) = check-some ready h1 in
      let (unqueued, h3) = check-some (not s.queued) h2 in
      let (inactive, h4) = check-some (not s.active) h3 in
      let (unfinished, h5) = check-some (not (is_completed s.progress)) h4 in
      let (pass, h6) = check-some ((data_of c i).pass_index == q.current_pass_index) h5 in
      let ring = put q.ring i in
      let (one_more, h7) =
        check-some (available_node_count ring == 1 + available_node_count q.ring) h6 in
      let same = some-injective _ _ h7 in
      let calm : Calm s (flag_queued s) = (refl, λ a n. absurd (ground arith)) in
      subst (λ x. Frame q x) same (Frame-write q i (flag_queued s) calm)

  pub unpark-Frame :
      (q : BuildQueue) (l : List ℕ) {q' : BuildQueue} → unpark c q l ≡ some q' → Frame q q'
  unfolding unpark flag_inactive flag_unqueued
  unpark-Frame q [] h = subst (λ x. Frame q x) (some-injective _ _ h) (Frame-refl q)
  unpark-Frame q (i ∷ rest) {q'} h =
      let s = q.node_state i in
      let unflagged = flag_inactive (flag_unqueued s) in
      let q1 = write (record q { expensive_wait_list = rest }) i unflagged in
      let (queued, h1) = check-some s.queued h in
      let (q2, e, h2) = bind-some (enqueue c q1 i) h1 in
      let calm : Calm s unflagged = (refl, λ a n. absurd (ground arith)) in
      subst (λ x. Frame q x) (some-injective _ _ h2)
        (Frame-trans q q1 q2 (Frame-write q i unflagged calm) (enqueue-Frame q1 i e))

  pub release_expensive-Frame :
      (q : BuildQueue) (i : ℕ) {q' : BuildQueue} → release_expensive c q i ≡ some q' → Frame q q'
  unfolding release_expensive unpark_expensive_node
  release_expensive-Frame q i {q'} h = elim (Bool-cases (data_of c i).expensive) [
    | inl e ↦
        let q1 = record q { expensive_running = decr q.expensive_running } in
        let (ok, h1) = check-some (not_negative q1.expensive_running) (rw e at h) in
        unpark-Frame q1 q1.expensive_wait_list h1
    | inr e ↦ subst (λ x. Frame q x) (some-injective _ _ (rw e at h)) (Frame-refl q)
  ]
