-- ===== src/Build/Frame/Links.antt =====
-- The loops over the links of a node leave alone what a thread works on.
use mathlib.Core.Option.{some-injective}
use tundra.Build.Node.{BuildProgress, is_completed, is_blocked}
use tundra.Build.State.{
  Config, BuildQueue, data_of, enqueue, all_dependencies_ready, get_state_for_node,
  get_dependency_state, wake_waiters,
}
use tundra.Build.Dependencies.Ready.{Completed}
use tundra.Build.Dependencies.{
  visit, setup_loop, setup_dependencies, unblock, unblock_loop, unblock_waiters,
}
use tundra.Prelude.{
  ℕ, ◌≤◌, Bool, true, false, not, ◌&&◌, ◌||◌, ◌≡◌, refl, subst, inl, inr, ◌⊎◌, List, [], ◌∷◌,
  Option, none, some, if◌then◌else◌, ltb, ◌==◌, leb, bind-some, check-some, Bool-cases, arith,
}
use tundra.Build.Frame.{Frame, Frame-refl, Frame-trans, Frame→Keeps, Completed-mono, enqueue-Frame}

woken-Frame : (b : Bool) (q : BuildQueue) (n : ℕ) → Frame q (if b then wake_waiters q n else q)
unfolding wake_waiters
woken-Frame true q n = Frame-refl q
woken-Frame false q n = Frame-refl q

module _ (c : Config) where
  visit-Frame :
      (q : BuildQueue) (i waits enqueued : ℕ) {r : BuildQueue × ℕ × ℕ}
      → visit c q i waits enqueued ≡ some r
      → Frame q r.0 × (waits ≤ r.1) × (r.1 ≡ waits → is_completed (q.node_state i).progress ≡ true)
  unfolding visit
  visit-Frame q i waits enqueued {r} h =
      let s = q.node_state i in
      let P : BuildQueue × ℕ × ℕ → Type 0 =
        λ r. Frame q r.0 × (waits ≤ r.1) × (r.1 ≡ waits → is_completed s.progress ≡ true) in
      elim (Bool-cases (is_completed s.progress)) [
        | inl e ↦ subst P (some-injective _ _ (rw e at h)) (Frame-refl q, omega arith, λ z. e)
        | inr e ↦ elim (Bool-cases (not s.queued && not s.active && not (is_blocked s.progress))) [
          | inl f ↦
              let (q', e1, h1) = bind-some (enqueue c q i) (rw (e, f) at h) in
              subst P (some-injective _ _ h1)
                (enqueue-Frame c q i e1, omega arith, λ z. absurd (omega arith))
          | inr f ↦
              subst P (some-injective _ _ (rw (e, f) at h))
                (Frame-refl q, omega arith, λ z. absurd (omega arith))
        ]
      ]

  pub setup_loop-Frame :
      (pass : ℕ) (deps : List ℕ) (q : BuildQueue) (waits enqueued : ℕ) {r : BuildQueue × ℕ × ℕ}
      → setup_loop c pass deps q waits enqueued ≡ some r
      → Frame q r.0 × (waits ≤ r.1) × (r.1 ≡ 0 → Completed c r.0 deps)
  unfolding setup_loop
  setup_loop-Frame pass [] q waits enqueued h =
      subst (λ r. Frame q r.0 × (waits ≤ r.1) × (r.1 ≡ 0 → Unit)) (some-injective _ _ h)
        (Frame-refl q, omega arith, λ z. tt)
  setup_loop-Frame pass (dep ∷ deps) q waits enqueued {r} h =
      let (i, e1, h1) = bind-some (get_dependency_state c dep) h in
      let (before, h2) = check-some (leb (data_of c i).pass_index pass) h1 in
      let (v, e2, h3) = bind-some (visit c q i waits enqueued) h2 in
      let first = visit-Frame q i waits enqueued e2 in
      let rest = setup_loop-Frame pass deps v.0 v.1 v.2 {r = r} h3 in join i v e1 first rest
    where
      join :
          (i : ℕ) (v : BuildQueue × ℕ × ℕ)
          → get_dependency_state c dep ≡ some i
          → Frame q v.0
            × (waits ≤ v.1)
            × (v.1 ≡ waits → is_completed (q.node_state i).progress ≡ true)
          → Frame v.0 r.0 × (v.1 ≤ r.1) × (r.1 ≡ 0 → Completed c r.0 deps)
          → Frame q r.0 × (waits ≤ r.1) × (r.1 ≡ 0 → Completed c r.0 (dep ∷ deps))
      join i v e (f, w, d) (f', w', ds) =
          let all = Frame-trans q v.0 r.0 f f' in
          (all, omega arith, λ z. ((i, e, Frame→Keeps q r.0 all i (d (omega arith))), ds z))

  unblock-Frame :
      (q : BuildQueue) (w : Option ℕ) (count : ℕ) {r : BuildQueue × ℕ}
      → unblock c q w count ≡ some r
      → Frame q r.0
  unfolding unblock
  unblock-Frame q none count h = subst (λ r. Frame q r.0) (some-injective _ _ h) (Frame-refl q)
  unblock-Frame q (some w) count {r} h =
      let P : BuildQueue × ℕ → Type 0 = λ r. Frame q r.0 in
      elim (Bool-cases ((data_of c w).pass_index == q.current_pass_index)) [
        | inr e ↦ subst P (some-injective _ _ (rw e at h)) (Frame-refl q)
        | inl e ↦
            let (ready, e1, h1) = bind-some (all_dependencies_ready c q w) (rw e at h) in
            elim (Bool-cases ready) [
              | inr f ↦ subst P (some-injective _ _ (rw f at h1)) (Frame-refl q)
              | inl f ↦ elim (Bool-cases ((q.node_state w).queued || (q.node_state w).active)) [
                | inl g ↦ subst P (some-injective _ _ (rw (f, g) at h1)) (Frame-refl q)
                | inr g ↦
                    let (q', e2, h2) = bind-some (enqueue c q w) (rw (f, g) at h1) in
                    subst P (some-injective _ _ h2) (enqueue-Frame c q w e2)
              ]
            ]
      ]

  unblock_loop-Frame :
      (links : List ℕ) (q : BuildQueue) (count : ℕ) {r : BuildQueue × ℕ}
      → unblock_loop c links q count ≡ some r
      → Frame q r.0
  unfolding unblock_loop
  unblock_loop-Frame [] q count h = subst (λ r. Frame q r.0) (some-injective _ _ h) (Frame-refl q)
  unblock_loop-Frame (link ∷ links) q count {r} h =
      let (waiter, e1, h1) = bind-some (get_state_for_node c link) h in
      let (v, e2, h2) = bind-some (unblock c q waiter count) h1 in
      Frame-trans q v.0 r.0 (unblock-Frame q waiter count e2)
        (unblock_loop-Frame links v.0 v.1 {r = r} h2)

  pub unblock_waiters-Frame :
      (q : BuildQueue) (i : ℕ) {q' : BuildQueue} → unblock_waiters c q i ≡ some q' → Frame q q'
  unfolding unblock_waiters wake_waiters
  unblock_waiters-Frame q i {q'} h =
      let (v, e, h1) = bind-some (unblock_loop c (data_of c i).back_links q 0) h in
      let f = unblock_loop-Frame (data_of c i).back_links q 0 e in
      subst (λ x. Frame q x) (some-injective _ _ h1)
        (elim (Bool-cases (ltb 0 v.1)) [ inl g ↦ rw g f | inr g ↦ rw g f ])

  -- A node that SetupDependencies does not block has all its dependencies completed.
  pub setup_dependencies-Frame :
      (q : BuildQueue) (i : ℕ) {r : BuildQueue × BuildProgress}
      → setup_dependencies c q i ≡ some r
      → Frame q r.0
        × ((r.1 ≡ BuildProgress.blocked)
            ⊎ ((r.1 ≡ BuildProgress.unblocked) × Completed c r.0 (data_of c i).dependencies))
  unfolding setup_dependencies
  setup_dependencies-Frame q i {r} h =
      let deps = (data_of c i).dependencies in
      let (v, e, h1) = bind-some (setup_loop c (data_of c i).pass_index deps q 0 0) h in
      let (f, w, ds) = setup_loop-Frame (data_of c i).pass_index deps q 0 0 e in
      subst
        (λ r.
          Frame q r.0
          × ((r.1 ≡ BuildProgress.blocked)
              ⊎ ((r.1 ≡ BuildProgress.unblocked) × Completed c r.0 (data_of c i).dependencies)))
        (some-injective _ _ h1) (after v f ds)
    where
      after :
          (v : BuildQueue × ℕ × ℕ)
          → Frame q v.0
          → (v.1 ≡ 0 → Completed c v.0 (data_of c i).dependencies)
          → let q'' = if ltb 0 v.2 then wake_waiters v.0 v.2 else v.0 in
            let p = if ltb 0 v.1 then BuildProgress.blocked else BuildProgress.unblocked in
            Frame q q''
            × ((p ≡ BuildProgress.blocked)
                ⊎ ((p ≡ BuildProgress.unblocked) × Completed c q'' (data_of c i).dependencies))
      after v f ds =
          let q'' = if ltb 0 v.2 then wake_waiters v.0 v.2 else v.0 in
          let woken = woken-Frame (ltb 0 v.2) v.0 v.2 in
          (
            Frame-trans q v.0 q'' f woken,
            elim (Bool-cases (ltb 0 v.1)) [
              | inl g ↦ inl (rw g refl)
              | inr g ↦ inr (
                rw g refl,
                Completed-mono c v.0 q'' (Frame→Keeps v.0 q'' woken) (data_of c i).dependencies
                    (ds (ground arith)),
              )
            ],
          )
