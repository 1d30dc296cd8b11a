-- ===== src/IncludeSet.antt =====
-- The set of files of src/Scanner.cpp: a string that was not there is inserted. The copy that one of
-- its two functions makes of the string is the same list.
use tundra.HashTable.{
  HashTableFlags, HashTable, hash_table_init, hash_table_base_lookup, hash_set_lookup,
  hash_set_insert,
}
use tundra.HashTable.Lookup.{key_of}
use tundra.HashTable.Stored.{Finds}
use tundra.HashTable.Contents.{IsTable, Maps, base_lookup-Finds, hash_table_init-IsTable}
use tundra.HashTable.Insertion.{hash_table_insert-Maps}
use tundra.StringHash.{djb2_hash_path, djb2_hash_path_pos, djb2_hash_path-key_of}
use tundra.Prelude.{
  ℕ, ◌≤◌, ◌<◌, Bool, true, false, ◌≡◌, ◌≢◌, ◌↔◌, ◌⊎◌, inl, inr, refl, sym, ◌∙◌, List, Option, none,
  some, if◌then◌else◌, ◌>>=◌, arith,
}

abbrev pub IncludeSet : Type 0
IncludeSet = HashTable (Unit {0})

-- IncludeSetAddNoDuplicateString and IncludeSetAddDuplicateString
unfoldable pub include_set_add :
    HashTableFlags → IncludeSet → List ℕ → ℕ → Option (Bool × IncludeSet)
unfolding hash_set_lookup hash_set_insert
include_set_add flags self string hash = hash_set_lookup flags self hash string >>= (λ found.
    if found
    then some (false, self)
    else hash_set_insert self hash string >>= (λ self'. some (true, self')))

none_in : (i : ℕ) → i < 0 → ⊥
none_in i lt = omega arith

module _ (flags : HashTableFlags) where
  -- A table whose strings stand there under their own hash.
  pub record IsIncludeSet (t : IncludeSet) : Type 0 where
    pub table : IsTable flags tt t
    pub hashed :
        (h : ℕ) (string : List ℕ)
        → h ≢ 0
        → Maps flags tt t h string tt
        → h ≡ djb2_hash_path flags string

  abbrev pub Contains : IncludeSet → List ℕ → Type 0
  Contains t string = Maps flags tt t (djb2_hash_path flags string) string tt

  abbrev pub Adds : IncludeSet → List ℕ → Bool × IncludeSet → Type 0
  Adds t string (added, t') =
      IsIncludeSet t'
      × ((added ≡ true) ↔ (Contains t string → ⊥))
      × ((s : List ℕ) → Contains t' s ↔ ((key_of flags string ≡ key_of flags s) ⊎ Contains t s))

  add_found :
      (t : IncludeSet) (string : List ℕ) (r : Option ℕ)
      → IsIncludeSet t
      → t.table_size_shift ≤ 29
      → hash_table_base_lookup flags t (djb2_hash_path flags string) string ≡ some r
      → Finds flags tt t.table_size t.slots (djb2_hash_path flags string) string r
      → (result : Bool × IncludeSet) × (include_set_add flags t string (djb2_hash_path flags string)
          ≡ some result)
        × Adds t string result
  unfolding include_set_add
  add_found t string none v small e misses =
      let hash = djb2_hash_path flags string in
      let (t', e', v', maps) =
        hash_table_insert-Maps flags tt t hash string tt v.table small
          (djb2_hash_path_pos flags string) (λ old (i, m, q). misses i m) in
      (
        (true, t'),
        rw (e, e') refl,
        (
          record {
            table = v';
            hashed = λ h s hpos m. elim ((maps h s tt hpos).0 m) [
              | inl (eh, es, q) ↦ sym eh ∙ djb2_hash_path-key_of flags string s es
              | inr m' ↦ v.hashed h s hpos m'
            ];
          },
          (λ added (i, m, q). misses i m, λ absent. refl),
          λ s.
              let pos = djb2_hash_path_pos flags s in
              (
                λ m. elim ((maps (djb2_hash_path flags s) s tt pos).0 m) [
                  | inl (eh, es, q) ↦ inl es
                  | inr m' ↦ inr m'
                ],
                λ c. (maps (djb2_hash_path flags s) s tt pos).1 (elim c [
                  | inl es ↦ inl (djb2_hash_path-key_of flags string s es, es, refl)
                  | inr m' ↦ inr m'
                ]),
              ),
        ),
      )
  add_found t string (some i) v small e found = (
    (false, t),
    rw e refl,
    (
      v,
      (λ added. absurd (ground arith), λ absent. absurd (absent (i, found, refl))),
      λ s. (
        inr,
        λ c. elim c [
          | inl es ↦ (
            i,
            record {
              in_table = found.in_table;
              same_hash = found.same_hash ∙ djb2_hash_path-key_of flags string s es;
              same_key = found.same_key ∙ es;
            },
            refl,
          )
          | inr m' ↦ m'
        ],
      ),
    ),
  )

  -- Adding a file to a set of files, each under the hash of its path, in a table of at most 2^29
  -- slots, succeeds and leaves such a set, with the file and the files that were there; it reports a
  -- new file exactly if none of the same path, up to the letters' case on a file system that ignores
  -- it, was there.
  pub include_set_add_lem :
      (t : IncludeSet) (string : List ℕ)
      → IsIncludeSet t
      → t.table_size_shift ≤ 29
      → (result : Bool × IncludeSet) × (include_set_add flags t string (djb2_hash_path flags string)
          ≡ some result)
        × Adds t string result
  include_set_add_lem t string v small =
      let (r, e, finds) =
        base_lookup-Finds flags tt t (djb2_hash_path flags string) string v.table
          (djb2_hash_path_pos flags string) in
      add_found t string r v small e finds

  pub hash_table_init-IsIncludeSet : IsIncludeSet hash_table_init
  unfolding hash_table_init
  hash_table_init-IsIncludeSet = record {
    table = hash_table_init-IsTable flags tt;
    hashed = λ h string pos (i, m, q). absurd (none_in i m.in_table);
  }
