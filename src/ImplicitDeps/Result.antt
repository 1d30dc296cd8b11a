-- ===== src/ImplicitDeps/Result.antt =====
-- What ScanImplicitDeps gives.
use tundra.HashTable.{hash_table_init}
use tundra.HashTable.Lookup.{key_of}
use tundra.HashTable.Walk.{Called, Stands, hash_table_walk-Called}
use tundra.StringHash.{djb2_hash_path, djb2_hash_path_pos}
use tundra.IncludeSet.{IncludeSet, Contains, hash_table_init-IsIncludeSet}
use tundra.ScanCache.{FileAndHash, ScanCache}
use tundra.ImplicitDeps.{SourceTree, ScanInput, ScanState, scan_implicit_deps}
use tundra.ImplicitDeps.Graph.{Reach, IsGraph, IsCache}
use tundra.ImplicitDeps.Adding.{IsFileSet}
use tundra.ImplicitDeps.Loop.{IsClosed, Going, scan_loop-Finds}
use tundra.Prelude.{
  ℕ, ◌+◌, ◌^◌, ◌≤◌, ◌≡◌, ◌↔◌, ◌⊎◌, inl, inr, refl, ap, List, [], ◌∷◌, map, some, length, get_or,
  arith,
}

-- The file is given, under the hash of its path.
abbrev pub Given : ScanInput → List ℕ → List FileAndHash → Type 0
Given input s [] = ⊥
Given input s (f ∷ files) =
    ((f.filename ≡ s) × (f.filename_hash ≡ djb2_hash_path input.flags s)) ⊎ Given input s files

abbrev given_files : List (ℕ × ℕ × List ℕ × Unit {0}) → List FileAndHash
given_files calls =
    map (λ (index, hash, path, u). record { filename = path; filename_hash = hash }) calls

module _ (input : ScanInput) where
  Called-Given :
      (s : List ℕ) (calls : List (ℕ × ℕ × List ℕ × Unit {0}))
      → Called (djb2_hash_path input.flags s) s tt calls
      → Given input s (given_files calls)
  Called-Given s [] c = elim c [ ]
  Called-Given s (call ∷ calls) (Called.now h str p) = inl (str, h)
  Called-Given s (call ∷ calls) (Called.later c) = inr (Called-Given s calls c)

  Given-Called :
      (s : List ℕ) (calls : List (ℕ × ℕ × List ℕ × Unit {0}))
      → Given input s (given_files calls)
      → Called (djb2_hash_path input.flags s) s tt calls
  Given-Called s [] g = absurd g
  Given-Called s (call ∷ calls) (inl (str, h)) = Called.now h str refl
  Given-Called s (call ∷ calls) (inr g) = Called.later (Given-Called s calls g)

  Contains-Stands :
      (t : IncludeSet) (s : List ℕ)
      → ((a b : List ℕ) → key_of input.flags a ≡ key_of input.flags b → a ≡ b)
      → Contains input.flags t s
        ↔ Stands tt t.slots 0 t.table_size (djb2_hash_path input.flags s) s tt
  Contains-Stands t s names = (
    λ (i, m, p). (
      i,
      omega arith,
      m.in_table,
      m.same_hash,
      names (get_or t.slots.strings i []) s m.same_key,
      refl,
    ),
    λ (j, lo, hi, h, str, p).
        (j, record { in_table = hi; same_hash = h; same_key = ap (key_of input.flags) str }, refl),
  )

  nothing_in : (s : List ℕ) → Contains input.flags hash_table_init s → ⊥
  unfolding hash_table_init
  nothing_in s (i, m, p) = let lt = m.in_table in absurd (omega arith)

module _ (input : ScanInput) (tree : SourceTree) (includes : List ℕ → List (List ℕ))
    (universe : List (List ℕ)) (start : List ℕ) where
  start-IsFileSet : IsFileSet input tree universe (length universe) hash_table_init universe
  unfolding hash_table_init
  start-IsFileSet = record {
    set = hash_table_init-IsIncludeSet input.flags;
    light = omega arith;
    count = omega arith;
    cover = λ u l. inr l;
  }

  start-Going :
      (c : ScanCache)
      → Going input tree includes universe start
          (record { incset = hash_table_init; scan_cache = c; filename_stack = start ∷ [] })
          (start ∷ [])
          universe
  start-Going c = record {
    is_set = start-IsFileSet;
    origin = λ s l. elim l [ inl e ↦ inl e | inr none_left ↦ absurd none_left ];
    sound = λ s c. absurd (nothing_in input s c);
    complete = λ g h. elim h [ inl e ↦ inl (inl e) | inr c ↦ absurd (nothing_in input g c) ];
  }

  -- Where a scan of each existing file finds the files that `includes` says, no two of them have the
  -- same key in the scan cache, paths are told apart by their letters' case, the start and the files
  -- of a list of at most 2^23 paths include no file outside the list, and the scan cache is right and
  -- true, with fewer than `n` records, `n` and the list's length adding up to less than 2^24, then
  -- with a round for each path of the list and one more the scan comes to an end. It gives exactly
  -- the files that can be reached from the start over one or more includes, each under the hash of
  -- its path, and leaves a scan cache that is right and true.
  pub scan_implicit_deps-Reach :
      (c : ScanCache) (n : ℕ)
      → IsGraph input tree includes
      → IsClosed input tree includes universe start
      → length universe ≤ 2 ^ 23
      → n + (length universe + 1) ≤ 2 ^ 24
      → IsCache input tree includes n c
      → (files : List FileAndHash) × (c' : ScanCache) × (scan_implicit_deps input tree
            (length universe + 1)
            c
            start
          ≡ some (files, c'))
        × ((s : List ℕ) → Given input s files ↔ Reach includes start s)
        × IsCache input tree includes (n + (length universe + 1)) c'
  unfolding scan_implicit_deps
  scan_implicit_deps-Reach c n graph closed low room cache =
      let stack : List (List ℕ) = start ∷ [] in
      let initial : ScanState = record {
        incset = hash_table_init;
        scan_cache = c;
        filename_stack = stack;
      } in
      let (state, looped, finds) =
        scan_loop-Finds input tree includes universe start graph closed low (length universe + 1) n
          stack universe initial (omega arith) room cache (start-Going c) in
      let (calls, walked, numbered, count, called) =
        hash_table_walk-Called input.flags tt state.incset finds.set.table in
      (
        given_files calls,
        state.scan_cache,
        rw (looped, walked) refl,
        λ s.
            let same =
              called (djb2_hash_path input.flags s) s tt (djb2_hash_path_pos input.flags s) in
            let stands = Contains-Stands input state.incset s graph.names in
            (
              λ g. (finds.reached s).0 (stands.1 (same.0 (Given-Called input s calls g))),
              λ r. Called-Given input s calls (same.1 (stands.0 ((finds.reached s).1 r))),
            ),
        finds.cache,
      )
