-- ===== src/ImplicitDeps/Graph.antt =====
-- What a scan is to find: the files that can be reached over includes, and a scan cache that is true
-- to the files.
use tundra.FileSign.{exists}
use tundra.HashTable.Lookup.{key_of}
use tundra.SortedArrays.{HashDigest}
use tundra.ScanCache.{
  FileAndHash, ScanCache, lookup_dynamic, dynamic_answer, frozen_answer, lookup_found,
  scan_cache_lookup, hash_files,
}
use tundra.ScanCache.Room.{IsScanCache, IsLight}
use tundra.ImplicitDeps.{FileRead, SourceTree, ScanInput, scan_key, scan_text}
use tundra.Prelude.{
  ℕ, ◌<◌, ◌≡◌, ◌⊎◌, inl, inr, refl, sym, ap, ◌∙◌, true, false, List, [], ◌∷◌, Option, none, some,
  set,
}

-- The path stands in the list.
abbrev pub Listed : List ℕ → List (List ℕ) → Type 0
Listed f [] = ⊥
Listed f (g ∷ files) = (f ≡ g) ⊎ Listed f files

-- The files that a file includes over any number of others.
pub data Reach (includes : List ℕ → List (List ℕ)) (start : List ℕ) : List ℕ → Type 0 where
  direct : {f : List ℕ} → Listed f (includes start) → Reach includes start f
  further : {g f : List ℕ} → Reach includes start g → Listed f (includes g) → Reach includes start f

-- What ScanCacheLookup answers, from the frozen data or else from this session's records.
abbrev pub found_in :
    Option (ℕ × List FileAndHash) → Option (List FileAndHash) → Option (List FileAndHash)
found_in (some (index, files)) dynamic = some files
found_in none dynamic = dynamic

lookup_dynamic_same :
    (c : ScanCache) (access : List ℕ) (key : HashDigest)
    → lookup_dynamic c key ≡ lookup_dynamic (record c { frozen_access = access }) key
unfolding lookup_dynamic
lookup_dynamic_same c access key = refl

lookup_found-found_in :
    (c : ScanCache) (key : HashDigest) (timestamp : ℕ) (o : Option (ℕ × List FileAndHash))
    → (lookup_found c key timestamp o).0
      ≡ found_in o (dynamic_answer timestamp (lookup_dynamic c key))
unfolding lookup_found
lookup_found-found_in c key timestamp none = refl
lookup_found-found_in c key timestamp (some (index, files)) = refl

module _ (input : ScanInput) (tree : SourceTree) (includes : List ℕ → List (List ℕ)) where
  -- The files that a scan of what was read finds.
  abbrev pub Scans : List ℕ → FileRead → Type 0
  Scans fn FileRead.unopened = includes fn ≡ []
  Scans fn FileRead.unread = includes fn ≡ []
  Scans fn (FileRead.content []) = includes fn ≡ []
  Scans fn (FileRead.content (b ∷ bytes)) = scan_text input tree fn (b ∷ bytes) ≡ some (includes fn)

  -- `includes` is what the scan of each file finds, no two files have the same key, and the table of
  -- files tells any two paths apart.
  pub record IsGraph : Type 0 where
    pub scanned : (fn : List ℕ) → exists (tree.info fn) ≡ true → Scans fn (tree.read fn)
    pub missing : (fn : List ℕ) → exists (tree.info fn) ≡ false → includes fn ≡ []
    pub keys :
        (a b : List ℕ)
        → exists (tree.info a) ≡ true
        → exists (tree.info b) ≡ true
        → scan_key input tree a ≡ scan_key input tree b
        → a ≡ b
    pub names : (a b : List ℕ) → key_of input.flags a ≡ key_of input.flags b → a ≡ b

  abbrev pub cached : ScanCache → HashDigest → ℕ → Option (List FileAndHash)
  cached c key timestamp = (scan_cache_lookup input.lower_bound c key timestamp).0

  -- Whatever the cache answers for a file with its present time stamp is what a scan finds.
  abbrev pub IsTrue : ScanCache → Type 0
  IsTrue c =
      (fn : List ℕ) (files : List FileAndHash)
      → exists (tree.info fn) ≡ true
      → cached c (scan_key input tree fn) (tree.info fn).timestamp ≡ some files
      → files ≡ hash_files input.flags (includes fn)

  -- A cache that is right and true, with fewer than `n` records.
  pub record IsCache (n : ℕ) (c : ScanCache) : Type 0 where
    pub formed : IsScanCache c
    pub light : IsLight c
    pub few : c.record_count < n
    pub true_now : IsTrue c

  pub cached-found_in :
      (c : ScanCache) (key : HashDigest) (timestamp : ℕ)
      → cached c key timestamp
        ≡ found_in
            (frozen_answer input.lower_bound c.frozen_data key timestamp)
            (dynamic_answer timestamp (lookup_dynamic c key))
  unfolding scan_cache_lookup
  cached-found_in c key timestamp =
      lookup_found-found_in c key timestamp
        (frozen_answer input.lower_bound c.frozen_data key timestamp)

  -- A lookup leaves a cache that answers the same.
  touched-IsCache :
      (n : ℕ) (c : ScanCache) (access : List ℕ)
      → IsCache n c
      → IsCache n (record c { frozen_access = access })
  touched-IsCache n c access v = record {
    formed = elim v.formed [
      | inl empty ↦ inl empty
      | inr full ↦ inr (record {
        shift = full.shift;
        low = full.low;
        high = full.high;
        is_power = full.is_power;
        chains = full.chains;
        chained = full.chained;
      })
    ];
    light = v.light;
    few = v.few;
    true_now = λ fn files there e.
        let c' : ScanCache = record c { frozen_access = access } in
        let key = scan_key input tree fn in
        let timestamp = (tree.info fn).timestamp in
        v.true_now fn files there (
          cached-found_in c key timestamp
          ∙ same_lookup key timestamp
          ∙ sym (cached-found_in c' key timestamp)
          ∙ e);
  }
    where
      same_lookup :
          (key : HashDigest) (timestamp : ℕ)
          → found_in
              (frozen_answer input.lower_bound c.frozen_data key timestamp)
              (dynamic_answer timestamp (lookup_dynamic c key))
            ≡ found_in (frozen_answer input.lower_bound c.frozen_data key timestamp) (
                dynamic_answer timestamp (lookup_dynamic (record c { frozen_access = access }) key))
      same_lookup key timestamp =
          ap
            (λ o.
              found_in (frozen_answer input.lower_bound c.frozen_data key timestamp)
                (dynamic_answer timestamp o))
            (lookup_dynamic_same c access key)

  lookup_found-IsCache :
      (n : ℕ) (c : ScanCache) (key : HashDigest) (timestamp : ℕ) (o : Option (ℕ × List FileAndHash))
      → IsCache n c
      → IsCache n (lookup_found c key timestamp o).1
  unfolding lookup_found
  lookup_found-IsCache n c key timestamp none v = v
  lookup_found-IsCache n c key timestamp (some (index, files)) v = touched-IsCache n c _ v

  pub scan_cache_lookup-IsCache :
      (n : ℕ) (c : ScanCache) (key : HashDigest) (timestamp : ℕ)
      → IsCache n c
      → IsCache n (scan_cache_lookup input.lower_bound c key timestamp).1
  unfolding scan_cache_lookup
  scan_cache_lookup-IsCache n c key timestamp v = lookup_found-IsCache n c key timestamp _ v

  same_after :
      (c : ScanCache) (key k : HashDigest) (timestamp ts : ℕ) (o : Option (ℕ × List FileAndHash))
      → cached (lookup_found c key timestamp o).1 k ts ≡ cached c k ts
  unfolding lookup_found
  same_after c key k timestamp ts none = refl
  same_after c key k timestamp ts (some (index, files)) =
      let access = set c.frozen_access index 1 in
      cached-found_in (record c { frozen_access = access }) k ts
      ∙ ap
          (λ o. found_in (frozen_answer input.lower_bound c.frozen_data k ts) (dynamic_answer ts o))
          (sym (lookup_dynamic_same c access k))
      ∙ sym (cached-found_in c k ts)

  pub cached_same :
      (c : ScanCache) (key k : HashDigest) (timestamp ts : ℕ)
      → cached (scan_cache_lookup input.lower_bound c key timestamp).1 k ts ≡ cached c k ts
  unfolding scan_cache_lookup
  cached_same c key k timestamp ts =
      same_after c key k timestamp ts (frozen_answer input.lower_bound c.frozen_data key timestamp)
