-- ===== src/Build/Order/Rounds.antt =====
-- Every round of AdvanceNode keeps the order, and so does the loop.
use mathlib.Core.Option.{some-injective}
use tundra.Build.Node.{BuildProgress, is_completed, is_blocked, flag_queued, flag_inactive}
use tundra.Build.State.{
  Config, BuildQueue, Wake, data_of, write, wake, all_dependencies_ready, park_expensive_node,
}
use tundra.Build.Dependencies.{setup_dependencies, unblock_waiters}
use tundra.Build.Dependencies.Ready.{Completed, all_dependencies_ready→Completed}
use tundra.Build.Advance.{
  Round, set_progress, release_expensive, start_action, finish, round, proceed, advance, is_empty,
}
use tundra.Build.Frame.{Frame, Frame-refl, Frame→Keeps, Completed-mono, release_expensive-Frame}
use tundra.Build.Frame.Links.{setup_dependencies-Frame, unblock_waiters-Frame}
use tundra.Prelude.Int.{incr, decr, is_pos}
use tundra.Prelude.{
  ℕ, zero, suc, ◌+◌, true, false, ◌≡◌, refl, ap, subst, ◌∙◌, inl, inr, ◌⊎◌, ◌∷◌, some,
  if◌then◌else◌, ltb, length, bind-some, check-some, Bool-cases, arith,
}
use tundra.Build.Order.{past, Ordered, Held, RoundOk, framed, own, RoundOk-trans}

module _ (c : Config) where
  start_action_ok :
      (q : BuildQueue) (i : ℕ) {v : BuildQueue × Round}
      → (q.node_state i).progress ≡ BuildProgress.run_action
      → Held (q.node_state i)
      → Ordered c q
      → start_action c q i ≡ some v
      → RoundOk c q i v.0 v.1
  unfolding start_action is_completed park_expensive_node flag_queued
  start_action_ok q i {v} e held o h =
      let P : BuildQueue × Round → Type 0 = λ v. RoundOk c q i v.0 v.1 in
      let unfinished : is_completed (q.node_state i).progress ≡ false = ap is_completed e in
      elim (Bool-cases (is_empty (data_of c i).action)) [
        | inl a ↦
            let s = record (q.node_state i) { progress = BuildProgress.succeeded } in
            let q1 = write q i s in
            let (q2, e1, h1) = bind-some (release_expensive c q1 i) (rw a at h) in
            let ready = λ (p : past s.progress ≡ true). o i (ap past e) in
            let first = own c q q i s Round.again (Frame-refl q) unfinished ready held o in
            let f = release_expensive-Frame c q1 i e1 in
            let same = (f i).1 first.after.0 first.after.1 in
            let after : Held (q2.node_state i) =
              (ap (λ s. s.active) same ∙ first.after.0, ap (λ s. s.queued) same ∙ first.after.1) in
            subst P (some-injective _ _ h1) (
              RoundOk-trans c q q1 q2 i Round.again first
                (framed c q1 q2 i Round.again f after first.ordered))
        | inr a ↦ elim (Bool-cases (data_of c i).expensive) [
          | inr x ↦
              subst P (some-injective _ _ (rw (a, x) at h))
                (framed c q q i Round.running (Frame-refl q) (held, unfinished, ap past e) o)
          | inl x ↦ elim (Bool-cases (is_pos q.expensive_running c.max_expensive_count)) [
            | inr y ↦
                let q1 = record q { expensive_running = incr q.expensive_running } in
                subst P (some-injective _ _ (rw (a, x, y) at h))
                  (framed c q q1 i Round.running (Frame-refl q) (held, unfinished, ap past e) o)
            | inl y ↦
                let (q1, e1, h1) = bind-some (park_expensive_node q i) (rw (a, x, y) at h) in
                let (room, e2) =
                  check-some (ltb (length q.expensive_wait_list) q.ring.capacity) e1 in
                let s = flag_queued (q.node_state i) in
                let parked = record q { expensive_wait_list = i ∷ q.expensive_wait_list } in
                let ready = λ (p : past s.progress ≡ true). o i p in
                subst P
                  (ap (λ x. (x, Round.returned)) (some-injective _ _ e2) ∙ some-injective _ _ h1)
                  (own c q parked i s Round.returned (Frame-refl q) unfinished ready tt o)
          ]
        ]
      ]

  finish_ok :
      (q q1 : BuildQueue) (i result : ℕ)
      → Frame q q1
      → past (q.node_state i).progress ≡ true
      → is_completed (q.node_state i).progress ≡ false
      → Held (q.node_state i)
      → Ordered c q
      → RoundOk c q i (finish c q1 i result) Round.again
  unfolding finish
  finish_ok q q1 i result f p unfinished held o =
      let same = (f i).1 held.0 held.1 in
      let s = record (q1.node_state i) {
        progress = BuildProgress.completed;
        build_result = result;
      } in
      let ready = λ (_ : past s.progress ≡ true).
        Completed-mono c q q1 (Frame→Keeps q q1 f) (data_of c i).dependencies (o i p) in
      let after : Held s = (ap (λ s. s.active) same ∙ held.0, ap (λ s. s.queued) same ∙ held.1) in
      own c q q1 i s Round.again f unfinished ready after o

  -- What follows SetupDependencies.
  initial_ok :
      (q q1 : BuildQueue) (i : ℕ) (p : BuildProgress)
      → Frame q q1
      → (p ≡ BuildProgress.blocked)
        ⊎ ((p ≡ BuildProgress.unblocked) × Completed c q1 (data_of c i).dependencies)
      → (q.node_state i).progress ≡ BuildProgress.initial
      → Held (q.node_state i)
      → Ordered c q
      → {v : BuildQueue × Round}
      → (if is_blocked p
          then some (
            write q1 i (flag_inactive (record (q1.node_state i) { progress = p })),
            Round.returned,
          )
          else some (set_progress q1 i p, Round.again))
        ≡ some v
      → RoundOk c q i v.0 v.1
  unfolding is_blocked is_completed flag_inactive
  initial_ok q q1 i p f (inl b) e held o {v} h =
      let s = flag_inactive (record (q1.node_state i) { progress = BuildProgress.blocked }) in
      let never = λ (n : past s.progress ≡ true). absurd (ground arith) in
      subst (λ v. RoundOk c q i v.0 v.1) (some-injective _ _ (rw b at h))
        (own c q q1 i s Round.returned f (ap is_completed e) never tt o)
  initial_ok q q1 i p f (inr (u, ds)) e held o {v} h =
      let same = (f i).1 held.0 held.1 in
      let s = record (q1.node_state i) { progress = BuildProgress.unblocked } in
      let after : Held s = (ap (λ s. s.active) same ∙ held.0, ap (λ s. s.queued) same ∙ held.1) in
      subst (λ v. RoundOk c q i v.0 v.1) (some-injective _ _ (rw u at h))
        (own c q q1 i s Round.again f (ap is_completed e) (λ n. ds) after o)

  round_ok :
      (q : BuildQueue) (i : ℕ) (p : BuildProgress) {v : BuildQueue × Round}
      → (q.node_state i).progress ≡ p
      → Held (q.node_state i)
      → Ordered c q
      → round c q i p ≡ some v
      → RoundOk c q i v.0 v.1
  unfolding round is_completed flag_inactive is_blocked
  round_ok q i BuildProgress.initial {v} e held o h =
      let (r, e1, h1) = bind-some (setup_dependencies c q i) h in
      let (f, ways) = setup_dependencies-Frame c q i e1 in
      initial_ok q r.0 i r.1 f ways e held o {v = v} h1
  round_ok q i BuildProgress.blocked {v} e held o h =
      let (ready, e1, h1) = bind-some (all_dependencies_ready c q i) h in
      let (all, h2) = check-some ready h1 in
      let s = record (q.node_state i) { progress = BuildProgress.unblocked } in
      let ds = all_dependencies_ready→Completed c q i (e1 ∙ ap some all) in
      subst (λ v. RoundOk c q i v.0 v.1) (some-injective _ _ h2)
        (own c q q i s Round.again (Frame-refl q) (ap is_completed e) (λ p. ds) held o)
  round_ok q i BuildProgress.unblocked {v} e held o h =
      let (ready, e1, h1) = bind-some (all_dependencies_ready c q i) h in
      let (all, h2) = check-some ready h1 in
      let unfinished : is_completed (q.node_state i).progress ≡ false = ap is_completed e in
      subst (λ v. RoundOk c q i v.0 v.1) (some-injective _ _ h2)
        (framed c q q i Round.signing (Frame-refl q) (held, unfinished, ap past e) o)
  round_ok q i BuildProgress.run_action {v} e held o h = start_action_ok q i {v = v} e held o h
  round_ok q i BuildProgress.succeeded {v} e held o h =
      subst (λ v. RoundOk c q i v.0 v.1) (some-injective _ _ h)
        (finish_ok q q i 0 (Frame-refl q) (ap past e) (ap is_completed e) held o)
  round_ok q i BuildProgress.up_to_date {v} e held o h =
      subst (λ v. RoundOk c q i v.0 v.1) (some-injective _ _ h)
        (finish_ok q q i 0 (Frame-refl q) (ap past e) (ap is_completed e) held o)
  round_ok q i BuildProgress.failed {v} e held o h =
      let q1 =
        wake (record q { failed_node_count = q.failed_node_count + 1 }) Wake.cond_broadcast in
      subst (λ v. RoundOk c q i v.0 v.1) (some-injective _ _ h)
        (finish_ok q q1 i 1 (Frame-refl q) (ap past e) (ap is_completed e) held o)
  round_ok q i BuildProgress.completed {v} e held o h =
      let q1 = record q { pending_node_count = decr q.pending_node_count } in
      let (q2, e1, h1) = bind-some (unblock_waiters c q1 i) h in
      subst (λ v. RoundOk c q i v.0 v.1) (some-injective _ _ h1)
        (framed c q (wake q2 Wake.cond_broadcast) i Round.returned (unblock_waiters-Frame c q1 i e1)
          tt o)

  pub advance_ok :
      (fuel : ℕ) (q : BuildQueue) (i : ℕ) {v : BuildQueue × Round}
      → Held (q.node_state i)
      → Ordered c q
      → advance c fuel q i ≡ some v
      → RoundOk c q i v.0 v.1
  unfolding advance proceed
  advance_ok zero q i held o h = absurd (ground arith)
  advance_ok (suc fuel) q i {v} held o h =
      let (u, e, h1) = bind-some (round c q i (q.node_state i).progress) h in
      go u.0 u.1 (round_ok q i (q.node_state i).progress refl held o e)
        (λ ok h. advance_ok fuel u.0 i {v = v} ok.0 ok.1 h) h1
    where
      go :
          (q1 : BuildQueue) (r : Round)
          → RoundOk c q i q1 r
          → (Held (q1.node_state i) × Ordered c q1
              → advance c fuel q1 i ≡ some v
              → RoundOk c q1 i v.0 v.1)
          → proceed (λ q'. advance c fuel q' i) q1 r ≡ some v
          → RoundOk c q i v.0 v.1
      go q1 Round.again ok next h1 =
          RoundOk-trans c q q1 v.0 i v.1 ok (next (ok.after, ok.ordered) h1)
      go q1 Round.returned ok next h1 =
          subst (λ v. RoundOk c q i v.0 v.1) (some-injective _ _ h1) ok
      go q1 Round.signing ok next h1 = subst (λ v. RoundOk c q i v.0 v.1) (some-injective _ _ h1) ok
      go q1 Round.running ok next h1 = subst (λ v. RoundOk c q i v.0 v.1) (some-injective _ _ h1) ok
