-- ===== src/ImplicitDeps/Loop.antt =====
-- The loop of ScanImplicitDeps ends with all files that can be reached, and no other.
use tundra.IncludeSet.{Contains, IsIncludeSet}
use tundra.ScanCache.{ScanCache}
use tundra.ImplicitDeps.{SourceTree, ScanInput, ScanState, scan_loop}
use tundra.ImplicitDeps.Graph.{Listed, Reach, IsGraph, IsCache}
use tundra.ImplicitDeps.Visit.{visit_file-Visits}
use tundra.ImplicitDeps.Adding.{IsFileSet, Added}
use tundra.ImplicitDeps.AddFiles.{add_files-Added}
use tundra.Prelude.{
  ℕ, zero, suc, ◌+◌, ◌^◌, ◌≤◌, ◌≡◌, ◌↔◌, ◌⊎◌, inl, inr, refl, sym, subst, List, [], ◌∷◌, some,
  length, arith,
}

module _ (input : ScanInput) (tree : SourceTree) (includes : List ℕ → List (List ℕ))
    (universe : List (List ℕ)) (start : List ℕ) where
  -- The files that the start and the files of the universe include are in the universe.
  abbrev pub IsClosed : Type 0
  IsClosed =
      (g s : List ℕ) → (g ≡ start) ⊎ Listed g universe → Listed s (includes g) → Listed s universe

  pub Reach-Listed : (s : List ℕ) → IsClosed → Reach includes start s → Listed s universe
  Reach-Listed s closed (Reach.direct l) = closed start s (inl refl) l
  Reach-Listed s closed (Reach.further {g = g} r l) = closed g s (inr (Reach-Listed g closed r)) l

  -- Between two rounds: what is in the set can be reached, and what a file of the set or the start
  -- includes is in the set, unless the file is still on the stack.
  pub record Going (state : ScanState) (stack rest : List (List ℕ)) : Type 0 where
    pub is_set : IsFileSet input tree universe (length universe) state.incset rest
    pub origin : (s : List ℕ) → Listed s stack → (s ≡ start) ⊎ Contains input.flags state.incset s
    pub sound : (s : List ℕ) → Contains input.flags state.incset s → Reach includes start s
    pub complete :
        (g : List ℕ)
        → (g ≡ start) ⊎ Contains input.flags state.incset g
        → Listed g stack
          ⊎ ((s : List ℕ) → Listed s (includes g) → Contains input.flags state.incset s)

  -- The end of the loop.
  pub record Finds (n : ℕ) (state : ScanState) : Type 0 where
    pub set : IsIncludeSet input.flags state.incset
    pub cache : IsCache input tree includes n state.scan_cache
    pub reached : (s : List ℕ) → Contains input.flags state.incset s ↔ Reach includes start s

  Going-Finds :
      (n : ℕ) (state : ScanState) (rest : List (List ℕ))
      → Going state [] rest
      → IsCache input tree includes n state.scan_cache
      → Finds n state
  Going-Finds n state rest v cache = record {
    set = v.is_set.set;
    cache = cache;
    reached = λ s. (v.sound s, contained s);
  }
    where
      all_in :
          (g s : List ℕ)
          → (g ≡ start) ⊎ Contains input.flags state.incset g
          → Listed s (includes g)
          → Contains input.flags state.incset s
      all_in g s h l = elim (v.complete g h) [ inl none_left ↦ absurd none_left | inr c ↦ c s l ]

      contained : (s : List ℕ) → Reach includes start s → Contains input.flags state.incset s
      contained s (Reach.direct l) = all_in start s (inl refl) l
      contained s (Reach.further {g = g} r l) = all_in g s (inr (contained g r)) l

  Going-next :
      (fn : List ℕ) (stack rest : List (List ℕ)) (state before after : ScanState)
      → before.incset ≡ state.incset
      → before.filename_stack ≡ stack
      → Going state (fn ∷ stack) rest
      → (more : Added input tree universe (length universe) (includes fn) before after rest)
      → Going after after.filename_stack more.rest'
  Going-next fn stack rest state before after same_set same_stack v more =
      let old : (s : List ℕ)
          → Contains input.flags state.incset s
          → Contains input.flags after.incset s =
        λ s c. (more.contains s).1 (inr (subst (λ t. Contains input.flags t s) (sym same_set) c)) in
      let from : (s : List ℕ)
          → Contains input.flags after.incset s
          → Listed s (includes fn) ⊎ Contains input.flags state.incset s =
        λ s c. elim ((more.contains s).0 c) [
          | inl l ↦ inl l
          | inr b ↦ inr (subst (λ t. Contains input.flags t s) same_set b)
        ] in
      let below : (s : List ℕ) → Listed s stack → Listed s after.filename_stack =
        λ s l. more.kept s (subst (Listed s) (sym same_stack) l) in
      let done : (g : List ℕ)
          → (g ≡ start) ⊎ Contains input.flags state.incset g
          → Listed g after.filename_stack
            ⊎ ((s : List ℕ) → Listed s (includes g) → Contains input.flags after.incset s) =
        λ g h. elim (v.complete g h) [
          | inl l ↦ elim l [
            | inl e ↦
                inr (λ s i. (more.contains s).1 (inl (subst (λ z. Listed s (includes z)) e i)))
            | inr l' ↦ inl (below g l')
          ]
          | inr c ↦ inr (λ s i. old s (c s i))
        ] in
      record {
        is_set = more.is_set;
        origin = λ s l. elim (more.scheduled s l) [
          | inl i ↦ inr ((more.contains s).1 (inl i))
          | inr l' ↦ elim (v.origin s (inr (subst (Listed s) same_stack l'))) [
            | inl e ↦ inl e
            | inr c ↦ inr (old s c)
          ]
        ];
        sound = λ s c. elim (from s c) [
          | inr c' ↦ v.sound s c'
          | inl i ↦ elim (v.origin fn (inl refl)) [
            | inl e ↦ Reach.direct (subst (λ z. Listed s (includes z)) e i)
            | inr c' ↦ Reach.further (v.sound fn c') i
          ]
        ];
        complete = λ g h. elim h [
          | inl e ↦ done g (inl e)
          | inr c ↦ elim (from g c) [
            | inr c' ↦ done g (inr c')
            | inl i ↦ elim (more.fresh g i) [
              | inl b ↦ done g (inr (subst (λ t. Contains input.flags t g) same_set b))
              | inr l ↦ inl l
            ]
          ]
        ];
      }

  module _ (graph : IsGraph input tree includes) (closed : IsClosed)
      (low : length universe ≤ 2 ^ 23) where
    -- With fuel for each file on the stack and each that may come, the loop ends.
    pub scan_loop-Finds :
        (fuel n : ℕ) (stack rest : List (List ℕ)) (state : ScanState)
        → length stack + length rest ≤ fuel
        → n + fuel ≤ 2 ^ 24
        → IsCache input tree includes n state.scan_cache
        → Going state stack rest
        → (state' : ScanState) × (scan_loop input tree fuel stack state ≡ some state')
          × Finds (n + fuel) state'
    unfolding scan_loop
    scan_loop-Finds fuel n [] rest state enough room cache v =
        (state, refl, Going-Finds (n + fuel) state rest v (wider n fuel state.scan_cache cache))
      where
        wider :
            (n fuel : ℕ) (c : ScanCache)
            → IsCache input tree includes n c
            → IsCache input tree includes (n + fuel) c
        wider n fuel c w = record {
          formed = w.formed;
          light = w.light;
          few = omega (arith, w.few);
          true_now = w.true_now;
        }
    scan_loop-Finds zero n (fn ∷ stack) rest state enough room cache v = absurd (omega arith)
    scan_loop-Finds (suc fuel) n (fn ∷ stack) rest state enough room cache v =
        let popped : ScanState = record state { filename_stack = stack } in
        let (c, visited, cache') =
          visit_file-Visits input tree includes n fn popped graph (omega arith) cache in
        let before : ScanState = record popped { scan_cache = c } in
        let inside : (s : List ℕ) → Listed s (includes fn) → Listed s universe = λ s l.
          closed fn s
            (elim (v.origin fn (inl refl)) [
              | inl e ↦ inl e
              | inr held ↦ inr (Reach-Listed fn closed (v.sound fn held))
            ])
            l in
        let (after, e, more) =
          add_files-Added input tree universe (length universe) graph.names low (includes fn) before
            rest inside v.is_set in
        let next = Going-next fn stack rest state before after refl refl v more in
        let cache'' = subst (IsCache input tree includes (suc n)) (sym more.same_cache) cache' in
        let (state', looped, finds) =
          scan_loop-Finds fuel (suc n) after.filename_stack more.rest' after
            (omega (arith, more.fewer)) (omega arith) cache'' next in
        (
          state',
          rw (visited, e) looped,
          subst (λ k. Finds k state') {x = suc n + fuel} (omega arith) finds,
        )
