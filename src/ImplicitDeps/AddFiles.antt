-- ===== src/ImplicitDeps/AddFiles.antt =====
-- All additions of a round, one after the other.
use tundra.HashTable.Lookup.{key_of}
use tundra.IncludeSet.{IncludeSet, Contains}
use tundra.ScanCache.{hash_files}
use tundra.ImplicitDeps.{SourceTree, ScanInput, ScanState, add_files}
use tundra.ImplicitDeps.Graph.{Listed}
use tundra.ImplicitDeps.Adding.{IsFileSet, Added, AddedOne, add_one}
use tundra.Prelude.{
  ℕ, ◌^◌, ◌≤◌, ◌≡◌, inl, inr, refl, sym, subst, Bool, true, false, List, [], ◌∷◌, some,
  if◌then◌else◌, length, arith,
}

module _ (input : ScanInput) (tree : SourceTree) (universe : List (List ℕ)) (limit : ℕ)
    (names : (a b : List ℕ) → key_of input.flags a ≡ key_of input.flags b → a ≡ b)
    (low : limit ≤ 2 ^ 23) where
  Added-nothing :
      (state : ScanState) (rest : List (List ℕ))
      → IsFileSet input tree universe limit state.incset rest
      → Added input tree universe limit [] state state rest
  Added-nothing state rest v = record {
    rest' = rest;
    is_set = v;
    same_cache = refl;
    contains = λ s. (inr, λ c. elim c [ inl l ↦ absurd l | inr old ↦ old ]);
    fewer = omega arith;
    kept = λ s l. l;
    scheduled = λ s l. inr l;
    fresh = λ s l. absurd l;
  }

  Added-cons :
      (f : List ℕ) (files : List (List ℕ)) (state after : ScanState) (rest : List (List ℕ))
      (added : Bool) (t' : IncludeSet)
      (one : AddedOne input tree universe limit f state.incset rest added t')
      → Added input tree universe limit files
          (record state {
            incset = t';
            filename_stack = if added then f ∷ state.filename_stack else state.filename_stack;
          })
          after
          one.rest1
      → Added input tree universe limit (f ∷ files) state after rest
  Added-cons f files state after rest true t' one more = record {
    rest' = more.rest';
    is_set = more.is_set;
    same_cache = more.same_cache;
    contains = λ s. (
      λ c. elim ((more.contains s).0 c) [
        | inl l ↦ inl (inr l)
        | inr c' ↦ elim ((one.contains s).0 c') [ inl e ↦ inl (inl (sym e)) | inr old ↦ inr old ]
      ],
      λ c. (more.contains s).1 (elim c [
        | inl l ↦ elim l [ inl e ↦ inr ((one.contains s).1 (inl (sym e))) | inr l' ↦ inl l' ]
        | inr old ↦ inr ((one.contains s).1 (inr old))
      ]),
    );
    fewer = elim one.told [
      | inl (yes', shorter) ↦ omega (arith, more.fewer, shorter)
      | inr (old, there, same) ↦ absurd (ground (arith, old))
    ];
    kept = λ s l. more.kept s (inr l);
    scheduled = λ s l. elim (more.scheduled s l) [
      | inl l' ↦ inl (inr l')
      | inr l' ↦ elim l' [ inl e ↦ inl (inl e) | inr old ↦ inr old ]
    ];
    fresh = λ s l. elim l [
      | inl e ↦ inr (more.kept s (inl e))
      | inr l' ↦ elim (more.fresh s l') [
        | inl c ↦ elim ((one.contains s).0 c) [
          | inl e ↦ inr (more.kept s (inl (sym e)))
          | inr old ↦ inl old
        ]
        | inr l'' ↦ inr l''
      ]
    ];
  }
  Added-cons f files state after rest false t' one more =
      let (there, same) : Contains input.flags state.incset f × (length one.rest1 ≡ length rest) =
        elim one.told [
          | inl (new, shorter) ↦ absurd (ground (arith, new))
          | inr (old, there, same) ↦ (there, same)
        ] in
      record {
        rest' = more.rest';
        is_set = more.is_set;
        same_cache = more.same_cache;
        contains = λ s. (
          λ c. elim ((more.contains s).0 c) [
            | inl l ↦ inl (inr l)
            | inr c' ↦ elim ((one.contains s).0 c') [
              | inl e ↦ inl (inl (sym e))
              | inr old ↦ inr old
            ]
          ],
          λ c. (more.contains s).1 (elim c [
            | inl l ↦ elim l [ inl e ↦ inr ((one.contains s).1 (inl (sym e))) | inr l' ↦ inl l' ]
            | inr old ↦ inr ((one.contains s).1 (inr old))
          ]),
        );
        fewer = omega (arith, more.fewer, same);
        kept = λ s l. more.kept s l;
        scheduled = λ s l. elim (more.scheduled s l) [ inl l' ↦ inl (inr l') | inr old ↦ inr old ];
        fresh = λ s l. elim l [
          | inl e ↦ inl (subst (Contains input.flags state.incset) (sym e) there)
          | inr l' ↦ elim (more.fresh s l') [
            | inl c ↦ elim ((one.contains s).0 c) [
              | inl e ↦ inl (subst (Contains input.flags state.incset) e there)
              | inr old ↦ inl old
            ]
            | inr l'' ↦ inr l''
          ]
        ];
      }

  -- Adding files of the universe succeeds: the set then holds them beside what it held, and those
  -- that it did not hold are scheduled.
  pub add_files-Added :
      (files : List (List ℕ)) (state : ScanState) (rest : List (List ℕ))
      → ((s : List ℕ) → Listed s files → Listed s universe)
      → IsFileSet input tree universe limit state.incset rest
      → (after : ScanState) × (add_files input tree (hash_files input.flags files) state
          ≡ some after)
        × Added input tree universe limit files state after rest
  unfolding add_files hash_files
  add_files-Added [] state rest inside v = (state, refl, Added-nothing state rest v)
  add_files-Added (f ∷ files) state rest inside v =
      let (added, t', e, one) =
        add_one input tree universe limit names low f state.incset rest (inside f (inl refl)) v in
      let next : ScanState = record state {
        incset = t';
        filename_stack = if added then f ∷ state.filename_stack else state.filename_stack;
      } in
      let (after, e', more) =
        add_files-Added files next one.rest1 (λ s l. inside s (inr l)) one.is_set in
      (after, rw e e', Added-cons f files state after rest added t' one more)
