-- ===== src/HashTable.antt =====
-- src/HashTable.hpp: hash tables and sets with open addressing. A set is a table whose payload is the
-- unit type. The three arrays of a table are lists, a null pointer in one of them being the empty list
-- or the zeroed payload; a loop that probes has a round for each slot, and no result if it does not
-- end in them.
pub mod Probe
pub mod Lookup
pub mod Occupied
pub mod Stored
pub mod Place
pub mod Growth
pub mod Contents
pub mod Steps
pub mod Insertion
pub mod Walk
pub mod Update
pub mod Size
use Prim.Native.Nat.{bit_and}
use tundra.Hashing.{fold_case}
use tundra.Prelude.Strings.{same_string}
use tundra.Prelude.{
  ℕ, zero, suc, ◌+◌, ◌-◌, ◌*◌, ◌/◌, ◌%◌, ◌^◌, max, Bool, true, false, ◌&&◌, List, [], ◌∷◌, Option,
  none, some, if◌then◌else◌, ◌==◌, ltb, length, get_or, set, replicate, check, ◌>>=◌, ◌>>◌,
}

-- kFlags
pub data HashTableFlags : Type 0 where
  flag_case_sensitive flag_case_insensitive : HashTableFlags

-- FastCompareNoCase(lhs, rhs) == 0; only the terminating zero folds to zero.
unfoldable pub fast_compare_no_case : List ℕ → List ℕ → Bool
unfolding fold_case
fast_compare_no_case [] [] = true
fast_compare_no_case [] (rc ∷ rhs) = false
fast_compare_no_case (lc ∷ lhs) [] = false
fast_compare_no_case (lc ∷ lhs) (rc ∷ rhs) =
    fold_case lc == fold_case rc && fast_compare_no_case lhs rhs

-- compare_fn(l, r) == 0
unfoldable pub compare_fn : HashTableFlags → List ℕ → List ℕ → Bool
unfolding fast_compare_no_case same_string
compare_fn HashTableFlags.flag_case_sensitive l r = same_string l r
compare_fn HashTableFlags.flag_case_insensitive l r = fast_compare_no_case l r

-- m_Hashes, m_Strings and m_Payloads
pub record Slots {ℓ} (A : Type ℓ) : Type ℓ where
  pub hashes : List ℕ
  pub strings : List (List ℕ)
  pub payloads : List A

pub record HashTable {ℓ} (A : Type ℓ) : Type ℓ where
  pub slots : Slots A
  pub table_size : ℕ
  pub table_size_shift : ℕ
  pub record_count : ℕ

-- The slot at which the search for a hash begins, and the one behind a slot.
unfoldable pub first_index : ℕ → ℕ → ℕ
first_index size hash = bit_and hash (size - 1)

unfoldable pub next_slot : ℕ → ℕ → ℕ
next_slot size index = bit_and (index + 1) (size - 1)

-- `while (hashes[index] != 0)`
unfoldable pub find_free : List ℕ → ℕ → ℕ → ℕ → Option ℕ
unfolding next_slot
find_free hashes size zero index = none
find_free hashes size (suc fuel) index =
    let rest = find_free hashes size fuel (next_slot size index) in
    if get_or hashes index 0 == 0 then some index else rest

module _ {ℓ} {A : Type ℓ} where
  unfoldable pub hash_table_init : HashTable A
  hash_table_init = record {
    slots = record { hashes = []; strings = []; payloads = [] };
    table_size = 0;
    table_size_shift = 0;
    record_count = 0;
  }

  -- HashTableDestroy and HashSetDestroy: the arrays are freed and the fields set as at the start.
  unfoldable pub hash_table_destroy : HashTable A → HashTable A
  unfolding hash_table_init
  hash_table_destroy self = hash_table_init

  -- The three stores into a slot.
  unfoldable pub put_slot : Slots A → ℕ → ℕ → List ℕ → A → Slots A
  put_slot s index hash string payload = record {
    hashes = set s.hashes index hash;
    strings = set s.strings index string;
    payloads = set s.payloads index payload;
  }

  -- The loop of HashTableBaseLookup: the index, or none for -1.
  unfoldable pub lookup_loop : HashTableFlags → Slots A → ℕ → ℕ → List ℕ → ℕ → ℕ → Option (Option ℕ)
  unfolding next_slot compare_fn
  lookup_loop flags s size hash string zero index = none
  lookup_loop flags s size hash string (suc fuel) index =
      let candidate_hash = get_or s.hashes index 0 in
      let rest = lookup_loop flags s size hash string fuel (next_slot size index) in
      if candidate_hash == 0
      then some none
      else if hash == candidate_hash && compare_fn flags (get_or s.strings index []) string
      then some (some index)
      else rest

  unfoldable pub hash_table_base_lookup :
      HashTableFlags → HashTable A → ℕ → List ℕ → Option (Option ℕ)
  unfolding lookup_loop first_index
  hash_table_base_lookup flags self hash string =
      let size = self.table_size in
      if 0 == size
      then some none
      else lookup_loop flags self.slots size hash string size (first_index size hash)

  unfoldable pub payload_at : A → Slots A → Option ℕ → Option A
  payload_at zeroed s none = none
  payload_at zeroed s (some index) = some (get_or s.payloads index zeroed)

  -- HashTableLookup: the payload, or none for a null pointer.
  unfoldable pub hash_table_lookup :
      A → HashTableFlags → HashTable A → ℕ → List ℕ → Option (Option A)
  unfolding hash_table_base_lookup payload_at
  hash_table_lookup zeroed flags self hash string =
      hash_table_base_lookup flags self hash string
      >>= (λ found. some (payload_at zeroed self.slots found))

  -- A round of the loop of HashTableGrow, for the slot i of the old arrays.
  unfoldable pub rehash_slot : A → ℕ → Slots A → ℕ → Slots A → Option (Slots A)
  unfolding find_free first_index put_slot
  rehash_slot zeroed new_size old i s =
      let h = get_or old.hashes i 0 in
      if h == 0
      then some s
      else find_free s.hashes new_size new_size (first_index new_size h) >>= (λ index.
        some (put_slot s index h (get_or old.strings i []) (get_or old.payloads i zeroed)))

  -- The loop over the first `old_size` slots.
  unfoldable pub rehash : A → ℕ → Slots A → ℕ → Option (Slots A)
  unfolding rehash_slot
  rehash zeroed new_size old zero = some (record {
    hashes = replicate new_size 0;
    strings = replicate new_size [];
    payloads = replicate new_size zeroed;
  })
  rehash zeroed new_size old (suc i) =
      rehash zeroed new_size old i >>= (λ s. rehash_slot zeroed new_size old i s)

  unfoldable pub new_shift : HashTable A → ℕ
  new_shift self = max (self.table_size_shift + 2) 7

  unfoldable pub grow_to : A → HashTable A → ℕ → Option (HashTable A)
  unfolding rehash new_shift
  grow_to zeroed self new_size = rehash zeroed new_size self.slots self.table_size >>= (λ s.
      some (record {
        slots = s;
        table_size = new_size;
        table_size_shift = new_shift self;
        record_count = self.record_count;
      }))

  -- HashTableGrow, which shifts a 32-bit one.
  unfoldable pub hash_table_grow : A → HashTable A → Option (HashTable A)
  unfolding grow_to
  hash_table_grow zeroed self = grow_to zeroed self (2 ^ new_shift self % 2 ^ 32)

  unfoldable pub load : HashTable A → ℕ
  load self = (0x100 * ((self.record_count + 1) % 2 ^ 32)) / 2 ^ self.table_size_shift

  -- HashTableBaseInsert behind the growth, with the store of the payload.
  unfoldable pub insert_slot : HashTable A → ℕ → List ℕ → A → Option (HashTable A)
  unfolding find_free first_index put_slot
  insert_slot self hash string payload =
      let size = self.table_size in
      find_free self.slots.hashes size size (first_index size hash) >>= (λ index.
        some (record self {
          slots = put_slot self.slots index hash string payload;
          record_count = (self.record_count + 1) % 2 ^ 32;
        }))

  unfoldable pub hash_table_insert : A → HashTable A → ℕ → List ℕ → A → Option (HashTable A)
  unfolding load hash_table_grow insert_slot
  hash_table_insert zeroed self hash string payload =
      if ltb 0x050 (load self)
      then hash_table_grow zeroed self >>= (λ grown. insert_slot grown hash string payload)
      else insert_slot self hash string payload

  -- The loop of HashTableWalk, from the slot i on: what the callback is given.
  unfoldable pub walk_loop : A → Slots A → ℕ → ℕ → ℕ → List (ℕ × ℕ × List ℕ × A)
  walk_loop zeroed s zero i index = []
  walk_loop zeroed s (suc left) i index =
      let hash = get_or s.hashes i 0 in
      let rest = walk_loop zeroed s left (i + 1) (if hash == 0 then index else index + 1) in
      if hash == 0
      then rest
      else (index, hash, get_or s.strings i [], get_or s.payloads i zeroed) ∷ rest

  unfoldable pub hash_table_walk : A → HashTable A → Option (List (ℕ × ℕ × List ℕ × A))
  unfolding walk_loop
  hash_table_walk zeroed self =
      let calls = walk_loop zeroed self.slots self.table_size 0 0 in
      check (length calls == self.record_count) >> some calls

-- HashSet
unfoldable pub hash_set_lookup : HashTableFlags → HashTable (Unit {0}) → ℕ → List ℕ → Option Bool
unfolding hash_table_base_lookup
hash_set_lookup flags self hash string =
    hash_table_base_lookup flags self hash string
    >>= (λ found. elim found [ none ↦ some false | some index ↦ some true ])

unfoldable pub hash_set_insert : HashTable (Unit {0}) → ℕ → List ℕ → Option (HashTable (Unit {0}))
unfolding hash_table_insert
hash_set_insert self hash string = hash_table_insert tt self hash string tt
