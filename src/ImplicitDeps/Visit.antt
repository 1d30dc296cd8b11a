-- ===== src/ImplicitDeps/Visit.antt =====
-- A round of the loop adds the files that the popped file includes, whether the scan cache knows them
-- or not.
use mathlib.Core.Option.{some-injective, some-ne-none}
use tundra.FileSign.{exists}
use tundra.HashTable.{HashTableFlags}
use tundra.SortedArrays.{HashDigest}
use tundra.ScanCache.{
  FileAndHash, ScanCache, Record, lookup_dynamic, dynamic_answer, frozen_answer, scan_cache_lookup,
  hash_files, same_digest,
}
use tundra.ScanCache.Chains.{same_digest_iff, same_digest_refl}
use tundra.ScanCache.Insert.{record_after, Inserts, scan_cache_insert-Inserts}
use tundra.ImplicitDeps.{
  FileRead, SourceTree, ScanInput, ScanState, scan_key, add_files, keep_found, scan_read,
  scan_cached, visit_file,
}
use tundra.ImplicitDeps.Graph.{
  found_in, Scans, IsGraph, cached, IsTrue, IsCache, cached-found_in, scan_cache_lookup-IsCache,
  cached_same, cached_same,
}
use tundra.Prelude.{
  ℕ, suc, ◌^◌, ◌≤◌, ◌≡◌, inl, inr, refl, sym, ap, subst, ◌∙◌, true, List, [], ◌∷◌, Option, none,
  some, ◌==◌, Bool-cases, arith,
}

found_in-none :
    (o : Option (ℕ × List FileAndHash)) (d : Option (List FileAndHash))
    → found_in o d ≡ none
    → (o ≡ none) × (d ≡ none)
found_in-none none d e = (refl, e)
found_in-none (some (index, files)) d e = absurd (some-ne-none _ e)

-- A record of another time stamp, or none, gives way to the new one.
dynamic-record_after :
    (flags : HashTableFlags) (key : HashDigest) (timestamp : ℕ) (files : List (List ℕ))
    (o : Option Record)
    → dynamic_answer timestamp o ≡ none
    → dynamic_answer timestamp (some (record_after flags key timestamp files o))
      ≡ some (hash_files flags files)
unfolding dynamic_answer
dynamic-record_after flags key timestamp files none =
    let same : (timestamp == timestamp) ≡ true = ground arith in rw same (λ e. refl)
dynamic-record_after flags key timestamp files (some old) =
    elim (Bool-cases (old.file_timestamp == timestamp)) [
      | inl m ↦ rw m (λ e. absurd (some-ne-none _ e))
      | inr m ↦
          rw m (λ e. let same : (timestamp == timestamp) ≡ true = ground arith in rw same refl)
    ]

module _ (input : ScanInput) (tree : SourceTree) (includes : List ℕ → List (List ℕ)) where
  insert-IsTrue :
      (c c' : ScanCache) (fn : List ℕ)
      → IsGraph input tree includes
      → exists (tree.info fn) ≡ true
      → cached input tree includes c (scan_key input tree fn) (tree.info fn).timestamp ≡ none
      → Inserts input.flags (scan_key input tree fn) (tree.info fn).timestamp (includes fn) c c'
      → IsTrue input tree includes c
      → IsTrue input tree includes c'
  insert-IsTrue c c' fn g here missed ins true_now f files there e =
      elim (Bool-cases (same_digest (scan_key input tree fn) (scan_key input tree f))) [
        | inl m ↦
            let same : fn ≡ f =
              g.keys fn f here there
                ((same_digest_iff (scan_key input tree fn) (scan_key input tree f)).0 m) in
            let (nothing, dynamic) =
              found_in-none
                (frozen_answer input.lower_bound c.frozen_data (scan_key input tree fn)
                  (tree.info fn).timestamp)
                (dynamic_answer (tree.info fn).timestamp
                  (lookup_dynamic c (scan_key input tree fn)))
                (sym (
                    cached-found_in input tree includes c (scan_key input tree fn)
                      (tree.info fn).timestamp)
                  ∙ missed) in
            let e' =
              subst
                (λ z.
                  cached input tree includes c' (scan_key input tree z) (tree.info z).timestamp
                  ≡ some files)
                (sym same) e in
            let got =
              ap
                (λ z.
                  found_in
                    (frozen_answer input.lower_bound z (scan_key input tree fn)
                      (tree.info fn).timestamp)
                    (dynamic_answer (tree.info fn).timestamp
                      (lookup_dynamic c' (scan_key input tree fn))))
                ins.1
              ∙ ap
                  (λ o. found_in o (
                    dynamic_answer (tree.info fn).timestamp
                      (lookup_dynamic c' (scan_key input tree fn))))
                  nothing
              ∙ ap (dynamic_answer (tree.info fn).timestamp) (
                  ins.0 (scan_key input tree fn)
                  ∙ rw (same_digest_refl (scan_key input tree fn)) refl)
              ∙ dynamic-record_after input.flags (scan_key input tree fn) (tree.info fn).timestamp
                  (includes fn) (lookup_dynamic c (scan_key input tree fn)) dynamic in
            some-injective _ _ (
              sym e'
              ∙ cached-found_in input tree includes c' (scan_key input tree fn)
                  (tree.info fn).timestamp
              ∙ got)
            ∙ ap (λ z. hash_files input.flags (includes z)) same
        | inr m ↦
            let key = scan_key input tree f in
            let timestamp = (tree.info f).timestamp in
            true_now f files there (
              cached-found_in input tree includes c key timestamp
              ∙ ap
                  (λ z.
                    found_in (frozen_answer input.lower_bound z key timestamp)
                      (dynamic_answer timestamp (lookup_dynamic c key)))
                  (sym ins.1)
              ∙ ap
                  (λ o.
                    found_in (frozen_answer input.lower_bound c'.frozen_data key timestamp)
                      (dynamic_answer timestamp o))
                  (sym (ins.0 key ∙ rw m refl))
              ∙ sym (cached-found_in input tree includes c' key timestamp)
              ∙ e)
      ]

  -- What a round does: it adds the files that the popped one includes, and the cache stays true.
  abbrev pub Visits : ℕ → List ℕ → ScanState → Option ScanState → Type 0
  Visits n fn state r =
      (c : ScanCache) × (r
        ≡ add_files input tree (hash_files input.flags (includes fn))
            (record state { scan_cache = c }))
      × IsCache input tree includes (suc n) c

  more-IsCache :
      (n : ℕ) (c : ScanCache)
      → IsCache input tree includes n c
      → IsCache input tree includes (suc n) c
  more-IsCache n c v = record {
    formed = v.formed;
    light = v.light;
    few = omega (arith, v.few);
    true_now = v.true_now;
  }

  keep_found-Visits :
      (n : ℕ) (fn : List ℕ) (found : List (List ℕ)) (state : ScanState)
      → IsGraph input tree includes
      → n ≤ 2 ^ 24
      → exists (tree.info fn) ≡ true
      → found ≡ includes fn
      → cached input tree includes state.scan_cache
          (scan_key input tree fn)
          (tree.info fn).timestamp
        ≡ none
      → IsCache input tree includes n state.scan_cache
      → Visits n fn state (keep_found input tree fn found state)
  unfolding keep_found
  keep_found-Visits n fn found state g small here e missed v =
      let c = state.scan_cache in
      let size : c.table_size ≤ 2 ^ 30 = omega (arith, v.light, v.few) in
      let (c', inserted, formed', ins) =
        scan_cache_insert-Inserts input.flags (scan_key input tree fn) (tree.info fn).timestamp
          found c v.formed size in
      let ins' =
        subst (λ z. Inserts input.flags (scan_key input tree fn) (tree.info fn).timestamp z c c') e
          ins in
      let sizes = ins.2 v.light (omega (arith, v.few)) in
      (
        c',
        rw (inserted, e) refl,
        record {
          formed = formed';
          light = sizes.0;
          few = omega (arith, sizes.1, v.few);
          true_now = insert-IsTrue c c' fn g here missed ins' v.true_now;
        },
      )

  -- Nothing is added.
  skipped-Visits :
      (n : ℕ) (fn : List ℕ) (state : ScanState)
      → includes fn ≡ []
      → IsCache input tree includes n state.scan_cache
      → Visits n fn state (some state)
  unfolding add_files hash_files
  skipped-Visits n fn state e v = (state.scan_cache, rw e refl, more-IsCache n state.scan_cache v)

  scan_read-Visits :
      (n : ℕ) (fn : List ℕ) (r : FileRead) (state : ScanState)
      → IsGraph input tree includes
      → n ≤ 2 ^ 24
      → exists (tree.info fn) ≡ true
      → Scans input tree includes fn r
      → cached input tree includes state.scan_cache
          (scan_key input tree fn)
          (tree.info fn).timestamp
        ≡ none
      → IsCache input tree includes n state.scan_cache
      → Visits n fn state (scan_read input tree fn r state)
  unfolding scan_read
  scan_read-Visits n fn FileRead.unopened state g small here e missed v =
      skipped-Visits n fn state e v
  scan_read-Visits n fn (FileRead.content []) state g small here e missed v =
      skipped-Visits n fn state e v
  scan_read-Visits n fn FileRead.unread state g small here e missed v =
      keep_found-Visits n fn [] state g small here (sym e) missed v
  scan_read-Visits n fn (FileRead.content (b ∷ bytes)) state g small here e missed v =
      rw e (keep_found-Visits n fn (includes fn) state g small here refl missed v)

  scan_cached-Visits :
      (n : ℕ) (fn : List ℕ) (o : Option (List FileAndHash)) (state : ScanState)
      → IsGraph input tree includes
      → n ≤ 2 ^ 24
      → exists (tree.info fn) ≡ true
      → cached input tree includes state.scan_cache
          (scan_key input tree fn)
          (tree.info fn).timestamp
        ≡ o
      → IsCache input tree includes n state.scan_cache
      → Visits n fn state (scan_cached input tree fn o state)
  unfolding scan_cached
  scan_cached-Visits n fn none state g small here e v =
      scan_read-Visits n fn (tree.read fn) state g small here (g.scanned fn here) e v
  scan_cached-Visits n fn (some files) state g small here e v = (
    state.scan_cache,
    ap (λ fs. add_files input tree fs state) (v.true_now fn files here e),
    more-IsCache n state.scan_cache v,
  )

  -- A round for a popped file is the addition of what it includes, with a cache that is still true.
  pub visit_file-Visits :
      (n : ℕ) (fn : List ℕ) (state : ScanState)
      → IsGraph input tree includes
      → n ≤ 2 ^ 24
      → IsCache input tree includes n state.scan_cache
      → Visits n fn state (visit_file input tree fn state)
  unfolding visit_file
  visit_file-Visits n fn state g small v =
      let key = scan_key input tree fn in
      let timestamp = (tree.info fn).timestamp in
      let found = scan_cache_lookup input.lower_bound state.scan_cache key timestamp in
      let v' = scan_cache_lookup-IsCache input tree includes n state.scan_cache key timestamp v in
      elim (Bool-cases (exists (tree.info fn))) [
        | inl here ↦ rw here (
            scan_cached-Visits n fn found.0 (record state { scan_cache = found.1 }) g small here
              (cached_same input tree includes state.scan_cache key key timestamp timestamp) v')
        | inr gone ↦ rw gone (skipped-Visits n fn state (g.missing fn gone) v)
      ]
