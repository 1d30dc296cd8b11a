-- ===== src/HashTable/Insertion.antt =====
-- An insertion adds its key to what the table maps, and leaves it a table.
use native.Mathlib.Nat.{mod-eq_of_lt, div-lt_iff_lt-mul}
use tundra.Prelude.Bits.{pow2_pos, pow2_le}
use mathlib.Core.Option.{some-injective}
use tundra.Prelude.{
  ◌&&◌, ℕ, ◌+◌, ◌*◌, ◌%◌, ◌^◌, ◌≤◌, ◌<◌, true, false, ◌≡◌, ◌≢◌, ◌↔◌, ◌⊎◌, refl, sym, ap, subst, ◌∙◌,
  inl, inr, List, Option, none, some, if◌then◌else◌, ◌==◌, ltb, Bool-cases, arith,
}
use tundra.HashTable.{
  HashTableFlags, compare_fn, HashTable, hash_table_lookup, load, hash_table_insert,
}
use tundra.HashTable.Lookup.{key_of, compare_fn_iff}
use tundra.HashTable.Contents.{IsTable, Maps, Tells, Tells-determined, hash_table_lookup-Tells}
use tundra.HashTable.Steps.{Inserted, insert_slot-Inserted, hash_table_grow-Maps}

module _ {ℓ} {A : Type ℓ} (flags : HashTableFlags) (zeroed : A) where
  abbrev Grows : HashTable A → ℕ → List ℕ → A → Type ℓ
  Grows t hash string payload =
      (t' : HashTable A) × (hash_table_insert zeroed t hash string payload ≡ some t')
      × IsTable flags zeroed t'
      × Inserted flags zeroed t hash string payload t'

  grown :
      (t : HashTable A) (hash : ℕ) (string : List ℕ) (payload : A)
      → IsTable flags zeroed t
      → t.table_size_shift ≤ 29
      → ltb 0x050 (load t) ≡ true
      → hash ≢ 0
      → ((old : A) → Maps flags zeroed t hash string old → ⊥)
      → Grows t hash string payload
  unfolding hash_table_insert
  grown t hash string payload v small full pos absent =
      let (g, e, vg, power, room, most, same) = hash_table_grow-Maps flags zeroed t v small in
      let (t', e', v', maps) =
        insert_slot-Inserted flags zeroed g hash string payload vg power room (omega arith) pos
          (λ old m. absent old ((same hash string old pos).0 m)) in
      (
        t',
        rw (full, e) e',
        v',
        λ h str q hpos.
            let (to, from) = maps h str q hpos in
            let (out, back) = same h str q hpos in
            (
              λ m. elim (to m) [ inl a ↦ inl a | inr b ↦ inr (out b) ],
              λ c. from (elim c [ inl a ↦ inl a | inr b ↦ inr (back b) ]),
            ),
      )

  pub light_bounds :
      (t : HashTable A)
      → IsTable flags zeroed t
      → t.table_size_shift ≤ 29
      → ltb 0x050 (load t) ≡ false
      → (t.table_size ≡ 2 ^ t.table_size_shift)
        × (256 * (t.record_count + 1) ≤ 81 * t.table_size)
        × (t.record_count + 1 < 2 ^ 32)
  unfolding load
  light_bounds t v small light =
      let power = pow2_le small in
      let pos = pow2_pos t.table_size_shift in
      let size_le : t.table_size ≤ 2 ^ 29 = ground (arith, v.size) in
      let fits : t.record_count + 1 < 2 ^ 32 = omega (arith, v.loaded) in
      let same = mod-eq_of_lt fits in
      let below : 256 * ((t.record_count + 1) % 2 ^ 32) < 81 * 2 ^ t.table_size_shift =
        (div-lt_iff_lt-mul pos).0 (ground arith) in
      let full : t.table_size ≡ 2 ^ t.table_size_shift = elim v.size [
        | inl (empty, none_yet) ↦ absurd (omega (arith, below, same, ap (λ k. 2 ^ k) none_yet))
        | inr e ↦ e
      ] in
      (full, omega (arith, below, same, full), fits)

  kept :
      (t : HashTable A) (hash : ℕ) (string : List ℕ) (payload : A)
      → IsTable flags zeroed t
      → t.table_size_shift ≤ 29
      → ltb 0x050 (load t) ≡ false
      → hash ≢ 0
      → ((old : A) → Maps flags zeroed t hash string old → ⊥)
      → Grows t hash string payload
  unfolding hash_table_insert
  kept t hash string payload v small light pos absent =
      let (power, room, fits) = light_bounds t v small light in
      let (t', e, v', maps) =
        insert_slot-Inserted flags zeroed t hash string payload v power room fits pos absent in
      (t', rw light e, v', maps)

  pub hash_table_insert-Maps :
      (t : HashTable A) (hash : ℕ) (string : List ℕ) (payload : A)
      → IsTable flags zeroed t
      → t.table_size_shift ≤ 29
      → hash ≢ 0
      → ((old : A) → Maps flags zeroed t hash string old → ⊥)
      → (t' : HashTable A) × (hash_table_insert zeroed t hash string payload ≡ some t')
        × IsTable flags zeroed t'
        × ((h : ℕ) (str : List ℕ) (q : A)
            → h ≢ 0
            → Maps flags zeroed t' h str q ↔ (
                ((hash ≡ h) × (key_of flags string ≡ key_of flags str) × (payload ≡ q))
                ⊎ Maps flags zeroed t h str q))
  unfolding hash_table_insert
  hash_table_insert-Maps t hash string payload v small pos absent =
      elim (Bool-cases (ltb 0x050 (load t))) [
        | inl e ↦ grown t hash string payload v small e pos absent
        | inr e ↦ kept t hash string payload v small e pos absent
      ]

  absent_of :
      (t : HashTable A) (hash : ℕ) (string : List ℕ)
      → IsTable flags zeroed t
      → hash ≢ 0
      → hash_table_lookup zeroed flags t hash string ≡ some none
      → (old : A) → Maps flags zeroed t hash string old
      → ⊥
  absent_of t hash string v pos e =
      let (r, e', tells) = hash_table_lookup-Tells flags zeroed t hash string v pos in
      subst (Tells flags zeroed t hash string) (some-injective _ _ (sym e' ∙ e)) tells

  still-Tells :
      (t t' : HashTable A) (hash h : ℕ) (string str : List ℕ) (payload : A) (r : Option A)
      → Inserted flags zeroed t hash string payload t'
      → h ≢ 0
      → ((hash ≡ h) × (key_of flags string ≡ key_of flags str) → ⊥)
      → Tells flags zeroed t h str r
      → Tells flags zeroed t' h str r
  still-Tells t t' hash h string str payload none maps pos other misses = λ q m.
      elim ((maps h str q pos).0 m) [ inl (eh, es, ep) ↦ other (eh, es) | inr m' ↦ misses q m' ]
  still-Tells t t' hash h string str payload (some q) maps pos other m =
      (maps h str q pos).1 (inr m)

  -- From a table of at most 2^29 slots, for a hash that is not zero and a key that the table does not
  -- hold, an insertion succeeds and leaves a table in which a lookup, for any hash that is not zero,
  -- gives the payload if it asks for that key, and else what it gave before.
  pub hash_table_lookup-insert :
      (t : HashTable A) (hash : ℕ) (string : List ℕ) (payload : A)
      → IsTable flags zeroed t
      → t.table_size_shift ≤ 29
      → hash ≢ 0
      → hash_table_lookup zeroed flags t hash string ≡ some none
      → (t' : HashTable A) × (hash_table_insert zeroed t hash string payload ≡ some t')
        × IsTable flags zeroed t'
        × ((h : ℕ) (str : List ℕ)
            → h ≢ 0
            → hash_table_lookup zeroed flags t' h str ≡ (
                if hash == h && compare_fn flags string str
                then some (some payload)
                else hash_table_lookup zeroed flags t h str))
  hash_table_lookup-insert t hash string payload v small pos e =
      let (t', inserted, v', maps) =
        hash_table_insert-Maps t hash string payload v small pos
          (absent_of t hash string v pos e) in
      (
        t',
        inserted,
        v',
        λ h str hpos.
            let (r, er, tells) = hash_table_lookup-Tells flags zeroed t h str v hpos in
            let (r', er', tells') = hash_table_lookup-Tells flags zeroed t' h str v' hpos in
            let same_key = compare_fn_iff flags string str in
            elim (Bool-cases (hash == h && compare_fn flags string str)) [
              | inl m ↦ rw m (
                  er'
                  ∙ ap some (
                      Tells-determined flags zeroed t' h str r' (some payload) v' hpos tells' (
                        (maps h str payload hpos).1
                          (inl (ground arith, ground (arith, same_key), refl)))))
              | inr m ↦ rw m (
                  er'
                  ∙ ap some (
                      Tells-determined flags zeroed t' h str r' r v' hpos tells' (
                        still-Tells t t' hash h string str payload r maps hpos
                          (λ (eh, es). ground (arith, eh, es, same_key)) tells))
                  ∙ sym er)
            ],
      )
