-- ===== src/HashTable/Stored.antt =====
-- Well-formed slots, what they hold, and that probing them ends.
use tundra.Prelude.{
  ℕ, ◌<◌, ◌≡◌, ◌≢◌, sym, subst, ◌∙◌, List, [], Option, none, some, length, get_or, arith,
}
use tundra.HashTable.{HashTableFlags, Slots, first_index, find_free, lookup_loop}
use tundra.HashTable.Occupied.{occupied, free_slot}
use tundra.HashTable.Probe.{IsSize, first_index_lt, distance_lt, Run, find_free-some}
use tundra.HashTable.Lookup.{key_of, Matches, Answers, lookup_loop-Answers}

module _ {ℓ} {A : Type ℓ} (flags : HashTableFlags) (zeroed : A) (size : ℕ) where
  -- Probing for a taken slot's hash comes to the slot, and no key stands in two slots.
  pub record IsSlots (s : Slots A) : Type 0 where
    pub hashes_length : length s.hashes ≡ size
    pub strings_length : length s.strings ≡ size
    pub payloads_length : length s.payloads ≡ size
    pub reached :
        (i : ℕ)
        → i < size
        → get_or s.hashes i 0 ≢ 0
        → Run s.hashes size (first_index size (get_or s.hashes i 0)) i
    pub unique :
        (i j : ℕ)
        → i < size
        → j < size
        → get_or s.hashes i 0 ≢ 0
        → get_or s.hashes i 0 ≡ get_or s.hashes j 0
        → key_of flags (get_or s.strings i []) ≡ key_of flags (get_or s.strings j [])
        → i ≡ j

  -- The key stands in a slot, with the payload.
  abbrev pub Holds : Slots A → ℕ → List ℕ → A → Type ℓ
  Holds s hash string payload =
      (i : ℕ) × Matches flags s size hash string i × (get_or s.payloads i zeroed ≡ payload)

  -- A search for a free slot finds one behind taken slots, if there is one.
  pub finds_free :
      (s : Slots A) (hash : ℕ)
      → IsSize size
      → IsSlots s
      → occupied s.hashes < size
      → (k : ℕ) × (find_free s.hashes size size (first_index size hash) ≡ some k)
        × (k < size)
        × (get_or s.hashes k 0 ≡ 0)
        × Run s.hashes size (first_index size hash) k
  finds_free s hash p v room =
      let (z, lt, free) = free_slot s.hashes (omega (arith, v.hashes_length)) in
      let a = first_index size hash in
      let ha = first_index_lt p hash in
      let hz : z < size = omega (arith, v.hashes_length) in
      find_free-some p s.hashes z hz free size a ha (distance_lt size a z ha hz)

  abbrev pub Finds : Slots A → ℕ → List ℕ → Option ℕ → Type 0
  Finds s hash string none = (i : ℕ) → Matches flags s size hash string i → ⊥
  Finds s hash string (some i) = Matches flags s size hash string i

  Answers-Finds :
      (s : Slots A) (hash : ℕ) (string : List ℕ) (r : Option ℕ)
      → IsSlots s
      → hash ≢ 0
      → Answers flags s size hash string (first_index size hash) r
      → Finds s hash string r
  Answers-Finds s hash string (some i) v pos m = m
  Answers-Finds s hash string none v pos misses = λ i m.
      misses i
        (subst (λ h. Run s.hashes size (first_index size h) i) m.same_hash
          (v.reached i m.in_table (λ e. pos (sym m.same_hash ∙ e))))
        m

  -- A lookup ends, and finds the key if some slot holds it.
  pub lookup_loop-Finds :
      (s : Slots A) (hash : ℕ) (string : List ℕ)
      → IsSize size
      → IsSlots s
      → occupied s.hashes < size
      → hash ≢ 0
      → (r : Option ℕ) × (lookup_loop flags s size hash string size (first_index size hash)
          ≡ some r)
        × Finds s hash string r
  lookup_loop-Finds s hash string p v room pos =
      let (z, lt, free) = free_slot s.hashes (omega (arith, v.hashes_length)) in
      let a = first_index size hash in
      let ha = first_index_lt p hash in
      let hz : z < size = omega (arith, v.hashes_length) in
      let (r, loop, answers) =
        lookup_loop-Answers flags s size p hash string z pos hz free size a ha
          (distance_lt size a z ha hz) in
      (r, loop, Answers-Finds s hash string r v pos answers)
