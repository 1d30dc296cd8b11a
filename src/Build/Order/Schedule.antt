-- ===== src/Build/Order/Schedule.antt =====
-- Every turn of every thread keeps the order, for any schedule.
use mathlib.Core.Option.{some-injective}
use tundra.Build.State.{Config, BuildQueue}
use tundra.Build.Advance.{Round, set_progress}
use tundra.Build.Frame.{Frame-refl, Keeps, release_expensive-Frame}
use tundra.Prelude.{
  ℕ, ◌||◌, ◌≡◌, ◌≢◌, refl, sym, ap, subst, ◌∙◌, inl, inr, List, [], ◌∷◌, Option, none, some,
  bind-some, Bool-cases, arith,
}
use tundra.Build.State.{next_node}
use tundra.Build.Actions.{Outcome}
use tundra.Build.Loop.{
  Phase, System, Event, enter, picked, after_action, turn, step, run, should_keep_building,
}
use tundra.Build.Order.{Held, RoundOk, framed, RoundOk-trans}
use tundra.Build.Order.Work.{Holds, Good, enter_ok, write_ok, next_node_ok}

module _ (c : Config) where
  stays :
      (s : System) {s' : System} → Good c s → some s ≡ some s' → Good c s' × Keeps s.queue s'.queue
  stays s good h =
      subst (λ s'. Good c s' × Keeps s.queue s'.queue) (some-injective _ _ h) (good, λ j d. d)

  picked_ok :
      (s : System) (t : ℕ) (found : Option (ℕ × BuildQueue)) {s' : System}
      → Good c s
      → next_node s.queue ≡ some found
      → picked c s t found ≡ some s'
      → Good c s' × Keeps s.queue s'.queue
  unfolding picked
  picked_ok s t none good e1 h1 = stays s good h1
  picked_ok s t (some (i, q)) good e1 h1 =
      let (f, inactive, held) = next_node_ok s.queue e1 in
      let free : (u k : ℕ) → t ≢ u → Holds (s.thread u) k → i ≢ k = λ u k n hk same.
        let w = good.working u k hk in
        absurd (ground (arith, ap (λ j. (s.queue.node_state j).active) same)) in
      enter_ok c s t i q good free (framed c s.queue q i Round.again f held good.ordered) h1

  -- A thread that works on node i goes on with it.
  resumed_ok :
      (s : System) (t i : ℕ) (q : BuildQueue) {s' : System}
      → Good c s
      → Holds (s.thread t) i
      → RoundOk c s.queue i q Round.again
      → enter c s t i q ≡ some s'
      → Good c s' × Keeps s.queue s'.queue
  resumed_ok s t i q good hold ok h =
      enter_ok c s t i q good
        (λ u k n hk same.
          n (good.apart t u i hold (subst (λ k. Holds (s.thread u) k) (sym same) hk)))
        ok h

  after_action_ok :
      (s : System) (t i : ℕ) (outcome : Outcome) {q : BuildQueue}
      → Good c s
      → Holds (s.thread t) i
      → after_action c s.queue i outcome ≡ some q
      → RoundOk c s.queue i q Round.again
  unfolding after_action
  after_action_ok s t i outcome {q} good hold h =
      let q0 = record (s.queue) { signalled = s.queue.signalled || outcome.was_signalled } in
      let q1 = set_progress q0 i outcome.progress in
      let first = write_ok c s t i q0 outcome.progress good hold (Frame-refl s.queue) in
      let f = release_expensive-Frame c q1 i h in
      let same = (f i).1 first.after.0 first.after.1 in
      let after : Held (q.node_state i) =
        (ap (λ s. s.active) same ∙ first.after.0, ap (λ s. s.queued) same ∙ first.after.1) in
      RoundOk-trans c s.queue q1 q i Round.again first
        (framed c q1 q i Round.again f after first.ordered)

  turn_ok :
      (s : System) (t : ℕ) (p : Phase) (e : Event) {s' : System}
      → s.thread t ≡ p
      → Good c s
      → turn c s t p e ≡ some s'
      → Good c s' × Keeps s.queue s'.queue
  unfolding turn
  turn_ok s t Phase.idle Event.pick {s'} ph good h =
      elim (Bool-cases (should_keep_building c s.queue t)) [
        | inr e ↦ stays s good (rw e at h)
        | inl e ↦
            let (found, e1, h1) = bind-some (next_node s.queue) (rw e at h) in
            picked_ok s t found good e1 h1
      ]
  turn_ok s t Phase.idle (Event.checked p) ph good h = stays s good h
  turn_ok s t Phase.idle (Event.ran o) ph good h = stays s good h
  turn_ok s t (Phase.signing i) Event.pick ph good h = stays s good h
  turn_ok s t (Phase.signing i) (Event.checked p) ph good h =
      let hold = subst (λ x. Holds x i) (sym ph) refl in
      resumed_ok s t i (set_progress s.queue i p) good hold
        (write_ok c s t i s.queue p good hold (Frame-refl s.queue)) h
  turn_ok s t (Phase.signing i) (Event.ran o) ph good h = stays s good h
  turn_ok s t (Phase.running i) Event.pick ph good h = stays s good h
  turn_ok s t (Phase.running i) (Event.checked p) ph good h = stays s good h
  turn_ok s t (Phase.running i) (Event.ran o) ph good h =
      let hold = subst (λ x. Holds x i) (sym ph) refl in
      let (q, e, h1) = bind-some (after_action c s.queue i o) h in
      resumed_ok s t i q good hold (after_action_ok s t i o good hold e) h1

  pub step_ok :
      (s : System) (e : ℕ × Event) {s' : System}
      → Good c s
      → step c s e ≡ some s'
      → Good c s' × Keeps s.queue s'.queue
  unfolding step
  step_ok s (t, e) good h = turn_ok s t (s.thread t) e refl good h

  -- What holds of the build before a schedule of turns holds after it, and no node that is
  -- completed is taken up again.
  pub run-Good :
      (s : System) (es : List (ℕ × Event)) {s' : System}
      → Good c s
      → run c s es ≡ some s'
      → Good c s' × Keeps s.queue s'.queue
  unfolding run
  run-Good s [] good h = stays s good h
  run-Good s (e ∷ es) {s'} good h =
      let (s1, e1, h1) = bind-some (step c s e) h in
      let (good1, keeps1) = step_ok s e good e1 in
      let (good2, keeps2) = run-Good s1 es {s' = s'} good1 h1 in
      (good2, λ j d. keeps2 j (keeps1 j d))
