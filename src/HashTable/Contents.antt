-- ===== src/HashTable/Contents.antt =====
-- What a table promises: it is a finite map from keys to payloads.
use tundra.Prelude.{
  ℕ, ◌*◌, ◌^◌, ◌≤◌, ◌<◌, ◌≡◌, ◌≢◌, ◌⊎◌, refl, sym, ap, ◌∙◌, inl, inr, List, Option, none, some,
  ◌==◌, get_or, Bool-cases, arith,
}
use tundra.HashTable.{
  HashTableFlags, HashTable, hash_table_init, hash_table_base_lookup, payload_at, hash_table_lookup,
}
use tundra.HashTable.Occupied.{occupied}
use tundra.HashTable.Stored.{IsSlots, Holds, Finds, lookup_loop-Finds}

module _ {ℓ} {A : Type ℓ} (flags : HashTableFlags) (zeroed : A) where
  -- The empty table, or one with a power of two of slots, of which at most 81 in 256 are taken.
  pub record IsTable (t : HashTable A) : Type 0 where
    pub formed : IsSlots flags zeroed t.table_size t.slots
    pub count : occupied t.slots.hashes ≡ t.record_count
    pub size :
        (t.table_size ≡ 0) × (t.table_size_shift ≡ 0) ⊎ (t.table_size ≡ 2 ^ t.table_size_shift)
    pub loaded : 256 * t.record_count ≤ 81 * t.table_size

  -- The table maps the key to the payload.
  abbrev pub Maps : HashTable A → ℕ → List ℕ → A → Type ℓ
  Maps t hash string payload = Holds flags zeroed t.table_size t.slots hash string payload

  pub hash_table_init-IsTable : IsTable hash_table_init
  unfolding hash_table_init
  hash_table_init-IsTable = record {
    formed = record {
      hashes_length = refl;
      strings_length = refl;
      payloads_length = refl;
      reached = λ i lt taken. absurd (taken refl);
      unique = λ i j hi hj taken eh es. absurd (taken refl);
    };
    count = refl;
    size = inl (refl, refl);
    loaded = omega arith;
  }

  -- The answer of a lookup: the payload that the table maps the key to, or none if there is none.
  abbrev pub Tells : HashTable A → ℕ → List ℕ → Option A → Type ℓ
  Tells t hash string none = (payload : A) → Maps t hash string payload → ⊥
  Tells t hash string (some payload) = Maps t hash string payload

  pub base_lookup-Finds :
      (t : HashTable A) (hash : ℕ) (string : List ℕ)
      → IsTable t
      → hash ≢ 0
      → (r : Option ℕ) × (hash_table_base_lookup flags t hash string ≡ some r)
        × Finds flags zeroed t.table_size t.slots hash string r
  unfolding hash_table_base_lookup
  base_lookup-Finds t hash string v pos = elim (Bool-cases (0 == t.table_size)) [
    | inl e ↦ (none, rw e refl, λ i m. let lt = m.in_table in absurd (ground arith))
    | inr e ↦
        let nonempty : 0 < t.table_size = ground arith in
        let power : t.table_size ≡ 2 ^ t.table_size_shift = ground (arith, v.size) in
        let (r, loop, finds) =
          lookup_loop-Finds flags zeroed t.table_size t.slots hash string
            (record { shift = t.table_size_shift; is_power = power }) v.formed
            (omega (arith, v.count, v.loaded)) pos in
        (r, rw e loop, finds)
  ]

  Finds-Tells :
      (t : HashTable A) (hash : ℕ) (string : List ℕ) (r : Option ℕ)
      → Finds flags zeroed t.table_size t.slots hash string r
      → Tells t hash string (payload_at zeroed t.slots r)
  unfolding payload_at
  Finds-Tells t hash string none misses = λ payload (i, m, e). misses i m
  Finds-Tells t hash string (some i) m = (i, m, refl)

  -- A lookup in a table, for a hash that is not zero, comes to an end, and gives a payload that a slot
  -- with the same hash and an equal string holds, or none where no slot does.
  pub hash_table_lookup-Tells :
      (t : HashTable A) (hash : ℕ) (string : List ℕ)
      → IsTable t
      → hash ≢ 0
      → (r : Option A) × (hash_table_lookup zeroed flags t hash string ≡ some r)
        × Tells t hash string r
  unfolding hash_table_lookup
  hash_table_lookup-Tells t hash string v pos =
      let (r, e, finds) = base_lookup-Finds t hash string v pos in
      (payload_at zeroed t.slots r, rw e refl, Finds-Tells t hash string r finds)

  Maps-determined :
      (t : HashTable A) (hash : ℕ) (string : List ℕ) (p q : A)
      → IsTable t
      → hash ≢ 0
      → Maps t hash string p
      → Maps t hash string q
      → p ≡ q
  Maps-determined t hash string p q v pos (i, mi, ei) (j, mj, ej) =
      let same : i ≡ j =
        v.formed.unique i j mi.in_table mj.in_table (λ e. pos (sym mi.same_hash ∙ e))
          (mi.same_hash ∙ sym mj.same_hash) (mi.same_key ∙ sym mj.same_key) in
      sym ei ∙ ap (λ k. get_or t.slots.payloads k zeroed) same ∙ ej

  -- There is one answer.
  pub Tells-determined :
      (t : HashTable A) (hash : ℕ) (string : List ℕ) (r r' : Option A)
      → IsTable t
      → hash ≢ 0
      → Tells t hash string r
      → Tells t hash string r'
      → r ≡ r'
  Tells-determined t hash string none none v pos m m' = refl
  Tells-determined t hash string none (some q) v pos misses m' = absurd (misses q m')
  Tells-determined t hash string (some p) none v pos m misses = absurd (misses p m)
  Tells-determined t hash string (some p) (some q) v pos m m' =
      ap some (Maps-determined t hash string p q v pos m m')
