-- ===== src/Build/Dependencies/Ready.antt =====
-- What the loops over a node's links find out.
use tundra.Build.Node.{is_completed}
use tundra.Build.State.{
  Config, BuildQueue, data_of, get_dependency_state, dependencies_ready, all_dependencies_ready,
}
use tundra.Prelude.{ℕ, ◌≡◌, inl, inr, true, List, [], ◌∷◌, some, Bool-cases, Option-cases, arith}

module _ (c : Config) where
  -- Every dependency of the list is in the build and completed.
  abbrev pub Completed : BuildQueue → List ℕ → Type 0
  Completed q [] = Unit
  Completed q (dep ∷ deps) =
      ((i : ℕ) × (get_dependency_state c dep ≡ some i)
        × (is_completed (q.node_state i).progress ≡ true))
      × Completed q deps

  dependencies_ready→Completed :
      (q : BuildQueue) (deps : List ℕ) → dependencies_ready c q deps ≡ some true → Completed q deps
  unfolding dependencies_ready
  dependencies_ready→Completed q [] h = tt
  dependencies_ready→Completed q (dep ∷ deps) h = elim (Option-cases (get_dependency_state c dep)) [
    | inl e ↦ absurd (ground arith)
    | inr (i, e) ↦ elim (Bool-cases (is_completed (q.node_state i).progress)) [
      | inl d ↦ ((i, e, d), dependencies_ready→Completed q deps (ground arith))
      | inr d ↦ absurd (ground arith)
    ]
  ]

  -- A node on which AllDependenciesReady holds has all its dependencies in the build and completed.
  pub all_dependencies_ready→Completed :
      (q : BuildQueue) (i : ℕ)
      → all_dependencies_ready c q i ≡ some true
      → Completed q (data_of c i).dependencies
  unfolding all_dependencies_ready
  all_dependencies_ready→Completed q i h =
      dependencies_ready→Completed q (data_of c i).dependencies h
