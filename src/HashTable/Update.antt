-- ===== src/HashTable/Update.antt =====
-- A store to the payload that a lookup found.
use mathlib.Core.Option.{some-injective}
use tundra.Prelude.{
  ℕ, zero, suc, ◌≡◌, ◌≢◌, inl, inr, refl, sym, ap, subst, ◌∙◌, Bool, true, false, ◌&&◌, List,
  Option, none, some, if◌then◌else◌, ◌==◌, get_or, set, length-set, get_or-set_self, get_or-set_ne,
  Bool-cases, arith,
}
use tundra.HashTable.{
  HashTableFlags, Slots, HashTable, compare_fn, next_slot, lookup_loop, first_index,
  hash_table_base_lookup, payload_at, hash_table_lookup,
}
use tundra.HashTable.Lookup.{key_of, Matches, compare_fn_iff}
use tundra.HashTable.Stored.{Finds}
use tundra.HashTable.Contents.{
  IsTable, base_lookup-Finds, Tells, hash_table_lookup-Tells, Tells-determined,
}

-- `*r = payload`, for the pointer that a lookup gave.
unfoldable pub store_payload {ℓ} : {A : Type ℓ} → HashTable A → ℕ → A → HashTable A
store_payload self index payload = record self {
  slots = record self.slots { payloads = set self.slots.payloads index payload };
}

some_if {ℓ} :
    {A : Type ℓ} (b : Bool) (x y : A) → some (if b then x else y) ≡ (if b then some x else some y)
some_if true x y = refl
some_if false x y = refl

module _ {ℓ} {A : Type ℓ} (flags : HashTableFlags) (zeroed : A) where
  lookup_loop-payloads :
      (s : Slots A) (payloads : List A) (size hash : ℕ) (string : List ℕ) (fuel i : ℕ)
      → lookup_loop flags (record s { payloads = payloads }) size hash string fuel i
        ≡ lookup_loop flags s size hash string fuel i
  unfolding lookup_loop
  lookup_loop-payloads s payloads size hash string zero i = refl
  lookup_loop-payloads s payloads size hash string (suc fuel) i =
      rw (lookup_loop-payloads s payloads size hash string fuel (next_slot size i)) refl

  base_lookup-store_payload :
      (t : HashTable A) (i : ℕ) (payload : A) (hash : ℕ) (string : List ℕ)
      → hash_table_base_lookup flags (store_payload t i payload) hash string
        ≡ hash_table_base_lookup flags t hash string
  unfolding hash_table_base_lookup store_payload
  base_lookup-store_payload t i payload hash string =
      ap (λ r. if 0 == t.table_size then some none else r)
        (lookup_loop-payloads t.slots (set t.slots.payloads i payload) t.table_size hash string
          t.table_size (first_index t.table_size hash))

  store_payload-IsTable :
      (t : HashTable A) (i : ℕ) (payload : A)
      → IsTable flags zeroed t
      → IsTable flags zeroed (store_payload t i payload)
  unfolding store_payload
  store_payload-IsTable t i payload v = record {
    formed = record {
      hashes_length = v.formed.hashes_length;
      strings_length = v.formed.strings_length;
      payloads_length = length-set t.slots.payloads i payload ∙ v.formed.payloads_length;
      reached = v.formed.reached;
      unique = v.formed.unique;
    };
    count = v.count;
    size = v.size;
    loaded = v.loaded;
  }

  -- Two keys in one slot are the same.
  same_slot :
      (t : HashTable A) (i : ℕ) (hash h : ℕ) (string str : List ℕ)
      → Matches flags t.slots t.table_size hash string i
      → Matches flags t.slots t.table_size h str i
      → (hash == h && compare_fn flags string str) ≡ true
  same_slot t i hash h string str m m' =
      let eh : hash ≡ h = sym m.same_hash ∙ m'.same_hash in
      let es = (compare_fn_iff flags string str).1 (sym m.same_key ∙ m'.same_key) in
      ground (arith, eh, es)

  looked_up :
      (t : HashTable A) (hash h i : ℕ) (string str : List ℕ) (payload : A) (r : Option ℕ)
      → IsTable flags zeroed t
      → hash ≢ 0
      → Matches flags t.slots t.table_size hash string i
      → Finds flags zeroed t.table_size t.slots h str r
      → payload_at zeroed (store_payload t i payload).slots r ≡ (
          if hash == h && compare_fn flags string str
          then some payload
          else payload_at zeroed t.slots r)
  unfolding payload_at store_payload
  looked_up t hash h i string str payload none v pos m misses =
      elim (Bool-cases (hash == h && compare_fn flags string str)) [
        | inl e ↦
            let same = compare_fn_iff flags string str in
            absurd (
              misses i (record {
                in_table = m.in_table;
                same_hash = m.same_hash ∙ ground (arith, e);
                same_key = m.same_key ∙ ground (arith, e, same);
              }))
        | inr e ↦ rw e refl
      ]
  looked_up t hash h i string str payload (some j) v pos m m' =
      elim (Bool-cases (hash == h && compare_fn flags string str)) [
        | inl e ↦
            let same = compare_fn_iff flags string str in
            let eh : hash ≡ h = ground (arith, e) in
            let ek : key_of flags string ≡ key_of flags str = ground (arith, e, same) in
            let one : i ≡ j =
              v.formed.unique i j m.in_table m'.in_table (λ z. pos (sym m.same_hash ∙ z))
                (m.same_hash ∙ eh ∙ sym m'.same_hash) (m.same_key ∙ ek ∙ sym m'.same_key) in
            rw e (
              ap some (
                ap (λ k. get_or (set t.slots.payloads k payload) j zeroed) one
                ∙ get_or-set_self t.slots.payloads j payload zeroed
                    (omega (arith, m'.in_table, v.formed.payloads_length))))
        | inr e ↦
            let apart : i ≢ j =
              λ one. ground (arith, e, same_key t i j hash h string str m m' one) in
            rw e (ap some (get_or-set_ne t.slots.payloads payload zeroed apart))
      ]
    where
      same_key :
          (t : HashTable A) (i j hash h : ℕ) (string str : List ℕ)
          → Matches flags t.slots t.table_size hash string i
          → Matches flags t.slots t.table_size h str j
          → i ≡ j
          → (hash == h && compare_fn flags string str) ≡ true
      same_key t i j hash h string str m m' one =
          same_slot t j hash h string str
            (subst (Matches flags t.slots t.table_size hash string) one m) m'

  -- Where a lookup finds a key in a slot, a store to the slot's payload leaves a table in which a
  -- lookup of that key gives the payload, and of every other key what it gave before.
  pub hash_table_lookup-store_payload :
      (t : HashTable A) (hash i : ℕ) (string : List ℕ) (payload : A)
      → IsTable flags zeroed t
      → hash ≢ 0
      → hash_table_base_lookup flags t hash string ≡ some (some i)
      → IsTable flags zeroed (store_payload t i payload)
        × ((h : ℕ) (str : List ℕ)
            → h ≢ 0
            → hash_table_lookup zeroed flags (store_payload t i payload) h str ≡ (
                if hash == h && compare_fn flags string str
                then some (some payload)
                else hash_table_lookup zeroed flags t h str))
  unfolding hash_table_lookup
  hash_table_lookup-store_payload t hash i string payload v pos e =
      let (r0, e0, m0) = base_lookup-Finds flags zeroed t hash string v pos in
      let m : Finds flags zeroed t.table_size t.slots hash string (some i) =
        subst (Finds flags zeroed t.table_size t.slots hash string)
          (some-injective _ _ (sym e0 ∙ e)) m0 in
      (
        store_payload-IsTable t i payload v,
        λ h str hpos.
            let (r, er, finds) = base_lookup-Finds flags zeroed t h str v hpos in
            let got = looked_up t hash h i string str payload r v pos m finds in
            rw (base_lookup-store_payload t i payload h str, er)
              (ap some got
                ∙ some_if (hash == h && compare_fn flags string str) (some payload)
                    (payload_at zeroed t.slots r)),
      )

  -- A lookup depends on the key alone.
  pub hash_table_lookup_same :
      (t : HashTable A) (hash h : ℕ) (string str : List ℕ) (payload : A)
      → IsTable flags zeroed t
      → hash ≢ 0
      → (hash == h && compare_fn flags string str) ≡ true
      → hash_table_lookup zeroed flags t hash string ≡ some (some payload)
      → hash_table_lookup zeroed flags t h str ≡ some (some payload)
  hash_table_lookup_same t hash h string str payload v pos e found =
      let eh : hash ≡ h = ground (arith, e) in
      let same = compare_fn_iff flags string str in
      let ek : key_of flags string ≡ key_of flags str = ground (arith, e, same) in
      let hpos : h ≢ 0 = λ z. pos (eh ∙ z) in
      let (r, er, tells) = hash_table_lookup-Tells flags zeroed t hash string v pos in
      let (i, m, ei) =
        subst (Tells flags zeroed t hash string) (some-injective _ _ (sym er ∙ found)) tells in
      let (r', er', tells') = hash_table_lookup-Tells flags zeroed t h str v hpos in
      let maps : Tells flags zeroed t h str (some payload) = (
        i,
        record { in_table = m.in_table; same_hash = m.same_hash ∙ eh; same_key = m.same_key ∙ ek },
        ei,
      ) in
      er' ∙ ap some (Tells-determined flags zeroed t h str r' (some payload) v hpos tells' maps)
