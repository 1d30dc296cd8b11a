-- ===== src/Build/Advance/Fuel.antt =====
-- The `for (;;)` of AdvanceNode makes few rounds before it gives up the lock.
use mathlib.Core.Option.{some-injective}
use tundra.Build.Node.{BuildProgress, is_blocked, flag_inactive}
use tundra.Build.State.{
  Config, BuildQueue, Wake, data_of, write, wake, all_dependencies_ready, park_expensive_node,
}
use tundra.Build.Dependencies.{setup_dependencies, unblock_waiters}
use tundra.Build.Dependencies.Ready.{Completed}
use tundra.Build.Advance.{
  Round, set_progress, release_expensive, start_action, finish, round, proceed, advance, is_empty,
}
use tundra.Build.Frame.{release_expensive-Frame}
use tundra.Build.Frame.Links.{setup_dependencies-Frame}
use tundra.Prelude.Int.{decr, is_pos}
use tundra.Prelude.{
  ℕ, zero, suc, ◌+◌, ◌≤◌, ◌<◌, true, ◌≡◌, refl, ap, subst, ◌∙◌, inl, inr, ◌⊎◌, Option, none, some,
  if◌then◌else◌, ◌==◌, bind-some, check-some, Bool-cases, Option-cases, arith,
}

-- The rounds that are left at most from each progress on.
abbrev rounds_left : BuildProgress → ℕ
rounds_left BuildProgress.initial = 2
rounds_left BuildProgress.blocked = 2
rounds_left BuildProgress.unblocked = 1
rounds_left BuildProgress.run_action = 3
rounds_left BuildProgress.succeeded = 2
rounds_left BuildProgress.up_to_date = 2
rounds_left BuildProgress.failed = 2
rounds_left BuildProgress.completed = 1

abbrev Fewer : ℕ → ℕ → BuildQueue × Round → Type 0
Fewer i n (q, Round.again) = rounds_left (q.node_state i).progress < n
Fewer i n (q, Round.returned) = Unit
Fewer i n (q, Round.signing) = Unit
Fewer i n (q, Round.running) = Unit

-- The lock is released, or AdvanceNode returns.
abbrev pub GivesUp : Round → Type 0
GivesUp Round.again = ⊥
GivesUp Round.returned = Unit
GivesUp Round.signing = Unit
GivesUp Round.running = Unit

progress-write :
    (q : BuildQueue) (i : ℕ) (p : BuildProgress) → ((set_progress q i p).node_state i).progress ≡ p
progress-write q i p = let e : (i == i) ≡ true = ground arith in rw e refl

module _ (c : Config) where
  start_action-Fewer :
      (q : BuildQueue) (i : ℕ) {v : BuildQueue × Round} → start_action c q i ≡ some v → Fewer i 3 v
  unfolding start_action
  start_action-Fewer q i {v} h = elim (Bool-cases (is_empty (data_of c i).action)) [
    | inl a ↦
        let q1 = set_progress q i BuildProgress.succeeded in
        let (q2, e1, h1) = bind-some (release_expensive c q1 i) (rw a at h) in
        let e =
          (release_expensive-Frame c q1 i e1 i).0 ∙ progress-write q i BuildProgress.succeeded in
        let two : rounds_left (q2.node_state i).progress ≡ 2 = ap rounds_left e in
        subst (Fewer i 3) (some-injective _ _ h1) (omega (arith, two))
    | inr a ↦ elim (Bool-cases (data_of c i).expensive) [
      | inr x ↦ subst (Fewer i 3) (some-injective _ _ (rw (a, x) at h)) tt
      | inl x ↦ elim (Bool-cases (is_pos q.expensive_running c.max_expensive_count)) [
        | inr y ↦ subst (Fewer i 3) (some-injective _ _ (rw (a, x, y) at h)) tt
        | inl y ↦
            let (q1, e1, h1) = bind-some (park_expensive_node q i) (rw (a, x, y) at h) in
            subst (Fewer i 3) (some-injective _ _ h1) tt
      ]
    ]
  ]

  initial-Fewer :
      (q1 : BuildQueue) (i : ℕ) (p : BuildProgress) (ds : Type 0)
      → (p ≡ BuildProgress.blocked) ⊎ ((p ≡ BuildProgress.unblocked) × ds)
      → {v : BuildQueue × Round}
      → (if is_blocked p
          then some (
            write q1 i (flag_inactive (record (q1.node_state i) { progress = p })),
            Round.returned,
          )
          else some (set_progress q1 i p, Round.again))
        ≡ some v
      → Fewer i 2 v
  unfolding is_blocked flag_inactive
  initial-Fewer q1 i p ds (inl b) {v} h = subst (Fewer i 2) (some-injective _ _ (rw b at h)) tt
  initial-Fewer q1 i p ds (inr (u, d)) {v} h =
      let one : rounds_left ((set_progress q1 i BuildProgress.unblocked).node_state i).progress
          ≡ 1 =
        ap rounds_left (progress-write q1 i BuildProgress.unblocked) in
      subst (Fewer i 2) (some-injective _ _ (rw u at h)) (omega (arith, one))

  finish-Fewer : (q : BuildQueue) (i result : ℕ) → Fewer i 2 (finish c q i result, Round.again)
  unfolding finish
  finish-Fewer q i result = let e : (i == i) ≡ true = ground arith in rw e (omega arith)

  round-Fewer :
      (q : BuildQueue) (i : ℕ) (p : BuildProgress) {v : BuildQueue × Round}
      → round c q i p ≡ some v
      → Fewer i (rounds_left p) v
  unfolding round
  round-Fewer q i BuildProgress.initial {v} h =
      let (r, e1, h1) = bind-some (setup_dependencies c q i) h in
      initial-Fewer r.0 i r.1 (Completed c r.0 (data_of c i).dependencies)
        (setup_dependencies-Frame c q i e1).1 {v = v} h1
  round-Fewer q i BuildProgress.blocked {v} h =
      let (ready, e1, h1) = bind-some (all_dependencies_ready c q i) h in
      let (all, h2) = check-some ready h1 in
      let one : rounds_left ((set_progress q i BuildProgress.unblocked).node_state i).progress ≡ 1 =
        ap rounds_left (progress-write q i BuildProgress.unblocked) in
      subst (Fewer i 2) (some-injective _ _ h2) (omega (arith, one))
  round-Fewer q i BuildProgress.unblocked {v} h =
      let (ready, e1, h1) = bind-some (all_dependencies_ready c q i) h in
      let (all, h2) = check-some ready h1 in subst (Fewer i 1) (some-injective _ _ h2) tt
  round-Fewer q i BuildProgress.run_action {v} h = start_action-Fewer q i {v = v} h
  round-Fewer q i BuildProgress.succeeded {v} h =
      subst (Fewer i 2) (some-injective _ _ h) (finish-Fewer q i 0)
  round-Fewer q i BuildProgress.up_to_date {v} h =
      subst (Fewer i 2) (some-injective _ _ h) (finish-Fewer q i 0)
  round-Fewer q i BuildProgress.failed {v} h =
      let q1 =
        wake (record q { failed_node_count = q.failed_node_count + 1 }) Wake.cond_broadcast in
      subst (Fewer i 2) (some-injective _ _ h) (finish-Fewer q1 i 1)
  round-Fewer q i BuildProgress.completed {v} h =
      let q1 = record q { pending_node_count = decr q.pending_node_count } in
      let (q2, e1, h1) = bind-some (unblock_waiters c q1 i) h in
      subst (Fewer i 1) (some-injective _ _ h1) tt

  -- The loop from a queue, in at most n rounds: a check fails in a round, or a round gives up the lock,
  -- or it goes on in one round less.
  pub data Ends (i : ℕ) : ℕ → BuildQueue → Option (BuildQueue × Round) → Type 0 where
    failed :
        {n : ℕ} {q : BuildQueue}
        → round c q i (q.node_state i).progress ≡ none
        → Ends i (suc n) q none
    gave_up :
        {n : ℕ} {q q' : BuildQueue} {r : Round}
        → round c q i (q.node_state i).progress ≡ some (q', r)
        → GivesUp r
        → Ends i (suc n) q (some (q', r))
    went_on :
        {n : ℕ} {q q' : BuildQueue} {out : Option (BuildQueue × Round)}
        → round c q i (q.node_state i).progress ≡ some (q', Round.again)
        → Ends i n q' out
        → Ends i (suc n) q out

  advance_within :
      (n k : ℕ) (q : BuildQueue) (i : ℕ)
      → rounds_left (q.node_state i).progress ≤ n
      → Ends i n q (advance c (n + k) q i)
  unfolding advance proceed
  advance_within zero k q i h = absurd (omega (arith, one_left (q.node_state i).progress))
    where
      one_left : (p : BuildProgress) → 1 ≤ rounds_left p
      one_left BuildProgress.initial = omega arith
      one_left BuildProgress.blocked = omega arith
      one_left BuildProgress.unblocked = omega arith
      one_left BuildProgress.run_action = omega arith
      one_left BuildProgress.succeeded = omega arith
      one_left BuildProgress.up_to_date = omega arith
      one_left BuildProgress.failed = omega arith
      one_left BuildProgress.completed = omega arith
  advance_within (suc n) k q i h =
      let p = (q.node_state i).progress in
      let more : suc n + k ≡ suc (n + k) = omega arith in
      elim (Option-cases (round c q i p)) [
        | inl e ↦ rw (more, e) (Ends.failed e)
        | inr (v, e) ↦
            let f = round-Fewer q i p {v = v} e in
            rw (more, e) (go v e f (λ q' l. advance_within n k q' i l))
      ]
    where
      go :
          (v : BuildQueue × Round)
          → round c q i (q.node_state i).progress ≡ some v
          → Fewer i (rounds_left (q.node_state i).progress) v
          → ((q' : BuildQueue)
              → rounds_left (q'.node_state i).progress ≤ n
              → Ends i n q' (advance c (n + k) q' i))
          → Ends i (suc n) q (proceed (λ q'. advance c (n + k) q' i) v.0 v.1)
      go (q', Round.again) e f next = Ends.went_on e (next q' (omega arith))
      go (q', Round.returned) e f next = Ends.gave_up e tt
      go (q', Round.signing) e f next = Ends.gave_up e tt
      go (q', Round.running) e f next = Ends.gave_up e tt

  -- From any queue and for any node, AdvanceNode's loop ends within three rounds, each going on from
  -- what the one before left: in the last one a check fails, or the thread returns or gives up the
  -- lock. `advance` with three rounds or more gives what the loop ends with.
  pub advance-Ends : (k : ℕ) (q : BuildQueue) (i : ℕ) → Ends i 3 q (advance c (3 + k) q i)
  advance-Ends k q i = advance_within 3 k q i (bound (q.node_state i).progress)
    where
      bound : (p : BuildProgress) → rounds_left p ≤ 3
      bound BuildProgress.initial = omega arith
      bound BuildProgress.blocked = omega arith
      bound BuildProgress.unblocked = omega arith
      bound BuildProgress.run_action = omega arith
      bound BuildProgress.succeeded = omega arith
      bound BuildProgress.up_to_date = omega arith
      bound BuildProgress.failed = omega arith
      bound BuildProgress.completed = omega arith
