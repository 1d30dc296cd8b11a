-- ===== src/HashTable/Steps.antt =====
-- The steps of an insertion: growth, and a new key in a table that has room.
use native.Mathlib.Nat.{mod-eq_of_lt}
use tundra.Prelude.Bits.{pow2-add, pow2_le}
use tundra.Prelude.{
  ℕ, suc, ◌+◌, ◌*◌, ◌%◌, ◌^◌, ◌≤◌, ◌<◌, ◌≡◌, ◌≢◌, ◌↔◌, ◌⊎◌, refl, ap, ◌∙◌, inr, List, some, get_or,
  arith,
}
use tundra.HashTable.{
  HashTableFlags, HashTable, put_slot, new_shift, grow_to, hash_table_grow, insert_slot,
}
use tundra.HashTable.Probe.{IsSize}
use tundra.HashTable.Lookup.{key_of}
use tundra.HashTable.Stored.{finds_free}
use tundra.HashTable.Place.{put_slot-Holds, put_slot-IsSlots, put_occupied}
use tundra.HashTable.Growth.{rehash-same}
use tundra.HashTable.Contents.{IsTable, Maps}

module _ {ℓ} {A : Type ℓ} (flags : HashTableFlags) (zeroed : A) where
  -- What an insertion makes of a table.
  abbrev pub Inserted : HashTable A → ℕ → List ℕ → A → HashTable A → Type ℓ
  Inserted t hash string payload t' =
      (h : ℕ) (str : List ℕ) (q : A)
      → h ≢ 0
      → Maps flags zeroed t' h str q ↔ (
          ((hash ≡ h) × (key_of flags string ≡ key_of flags str) × (payload ≡ q))
          ⊎ Maps flags zeroed t h str q)

  pub insert_slot-Inserted :
      (t : HashTable A) (hash : ℕ) (string : List ℕ) (payload : A)
      → IsTable flags zeroed t
      → t.table_size ≡ 2 ^ t.table_size_shift
      → 256 * (t.record_count + 1) ≤ 81 * t.table_size
      → t.record_count + 1 < 2 ^ 32
      → hash ≢ 0
      → ((old : A) → Maps flags zeroed t hash string old → ⊥)
      → (t' : HashTable A) × (insert_slot t hash string payload ≡ some t')
        × IsTable flags zeroed t'
        × Inserted t hash string payload t'
  unfolding insert_slot
  insert_slot-Inserted t hash string payload v power room fits pos absent =
      let p : IsSize t.table_size = record { shift = t.table_size_shift; is_power = power } in
      let (k, found, hk, free, run) =
        finds_free flags zeroed t.table_size t.slots hash p v.formed (omega (arith, v.count)) in
      let same : (t.record_count + 1) % 2 ^ 32 ≡ t.record_count + 1 = mod-eq_of_lt fits in
      (
        record t {
          slots = put_slot t.slots k hash string payload;
          record_count = (t.record_count + 1) % 2 ^ 32;
        },
        rw found refl,
        record {
          formed =
              put_slot-IsSlots flags zeroed t.table_size t.slots v.formed k hash string payload hk
                free pos run (λ i m. absent (get_or t.slots.payloads i zeroed) (i, m, refl));
          count =
              put_occupied flags zeroed t.table_size t.slots v.formed k hash string payload hk free
                pos
              ∙ ap suc v.count
              ∙ omega (arith, same);
          size = inr power;
          loaded = omega (arith, same);
        },
        λ h str q hpos.
            put_slot-Holds flags zeroed t.table_size t.slots v.formed k hash string payload hk free
              pos h str q hpos,
      )

  -- The new size is at least 128 and four times the old one, and fits a `uint32_t`.
  new_shift_bounds :
      (t : HashTable A)
      → t.table_size_shift ≤ 29
      → (128 ≤ 2 ^ new_shift t)
        × (4 * 2 ^ t.table_size_shift ≤ 2 ^ new_shift t)
        × (2 ^ new_shift t ≤ 2 ^ 31)
  unfolding new_shift
  new_shift_bounds t small =
      let s = new_shift t in
      let above : t.table_size_shift + 2 ≤ s = ground arith in
      let seven : 7 ≤ s = ground arith in
      let below : s ≤ 31 = ground arith in
      let quad = pow2_le above in
      (pow2_le seven, omega (arith, quad, pow2-add t.table_size_shift 2), pow2_le below)

  -- A table that has grown maps what it mapped, and has room.
  pub hash_table_grow-Maps :
      (t : HashTable A)
      → IsTable flags zeroed t
      → t.table_size_shift ≤ 29
      → (t' : HashTable A) × (hash_table_grow zeroed t ≡ some t')
        × IsTable flags zeroed t'
        × (t'.table_size ≡ 2 ^ t'.table_size_shift)
        × (256 * (t'.record_count + 1) ≤ 81 * t'.table_size)
        × (t'.table_size ≤ 2 ^ 31)
        × ((h : ℕ) (str : List ℕ) (q : A)
            → h ≢ 0
            → Maps flags zeroed t' h str q ↔ Maps flags zeroed t h str q)
  unfolding hash_table_grow
  hash_table_grow-Maps t v small =
      let n = 2 ^ new_shift t in
      let (least, quad, most) = new_shift_bounds t small in
      let old : 4 * t.table_size ≤ n = ground (arith, v.size) in
      let fits : n % 2 ^ 32 ≡ n = mod-eq_of_lt (omega arith) in
      let p : IsSize n = record { shift = new_shift t; is_power = refl } in
      let (s, e, formed, count, same) =
        rehash-same flags zeroed t.table_size n t.slots p v.formed (omega arith) in
      (
        record {
          slots = s;
          table_size = n;
          table_size_shift = new_shift t;
          record_count = t.record_count;
        },
        ap (grow_to zeroed t) fits ∙ rw e refl,
        record {
          formed = formed;
          count = count ∙ v.count;
          size = inr refl;
          loaded = omega (arith, v.loaded);
        },
        refl,
        omega (arith, v.loaded),
        most,
        same,
      )
