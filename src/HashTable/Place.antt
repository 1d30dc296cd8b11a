-- ===== src/HashTable/Place.antt =====
-- A new key in a free slot: what the slots hold then, and that they are still well formed.
use tundra.Prelude.{
  ℕ, suc, ◌<◌, ◌≡◌, ◌≢◌, ◌↔◌, ◌⊎◌, sym, ap, subst, ◌∙◌, inl, inr, List, [], ◌==◌, length-set,
  get_or, get_or-set_self, get_or-set_ne, set, Bool-cases, arith,
}
use tundra.HashTable.{HashTableFlags, Slots, first_index, put_slot}
use tundra.HashTable.Probe.{Run}
use tundra.HashTable.Lookup.{key_of, Matches}
use tundra.HashTable.Occupied.{occupied, occupied-set}
use tundra.HashTable.Stored.{IsSlots, Holds}

pub slot_cases : (k i : ℕ) → (k ≡ i) ⊎ (k ≢ i)
slot_cases k i = elim (Bool-cases (k == i)) [
  | inl e ↦ inl (ground arith)
  | inr e ↦ inr (ground arith)
]

module _ {ℓ} {A : Type ℓ} (flags : HashTableFlags) (zeroed : A) (size : ℕ) where
  Run-put_slot :
      (hashes : List ℕ) (k v : ℕ) {a b : ℕ}
      → get_or hashes k 0 ≡ 0
      → Run hashes size a b
      → Run (set hashes k v) size a b
  Run-put_slot hashes k v free (Run.here a) = Run.here a
  Run-put_slot hashes k v free (Run.there a b taken run) =
      let ne : k ≢ a = λ e. taken (ap (λ i. get_or hashes i 0) (sym e) ∙ free) in
      Run.there a b (λ e. taken (sym (get_or-set_ne hashes v 0 ne) ∙ e))
        (Run-put_slot hashes k v free run)

  module _ (s : Slots A) (v : IsSlots flags zeroed size s) (k hash : ℕ) (string : List ℕ)
      (payload : A) (hk : k < size) where
    put_self :
        (get_or (put_slot s k hash string payload).hashes k 0 ≡ hash)
        × (get_or (put_slot s k hash string payload).strings k [] ≡ string)
        × (get_or (put_slot s k hash string payload).payloads k zeroed ≡ payload)
    unfolding put_slot
    put_self = (
      get_or-set_self s.hashes k hash 0 (omega (arith, v.hashes_length)),
      get_or-set_self s.strings k string [] (omega (arith, v.strings_length)),
      get_or-set_self s.payloads k payload zeroed (omega (arith, v.payloads_length)),
    )

    put_ne :
        (i : ℕ)
        → k ≢ i
        → (get_or (put_slot s k hash string payload).hashes i 0 ≡ get_or s.hashes i 0)
          × (get_or (put_slot s k hash string payload).strings i [] ≡ get_or s.strings i [])
          × (get_or (put_slot s k hash string payload).payloads i zeroed
              ≡ get_or s.payloads i zeroed)
    unfolding put_slot
    put_ne i ne = (
      get_or-set_ne s.hashes hash 0 ne,
      get_or-set_ne s.strings string [] ne,
      get_or-set_ne s.payloads payload zeroed ne,
    )

    abbrev pub Added : ℕ → List ℕ → A → Type ℓ
    Added h str q = (hash ≡ h) × (key_of flags string ≡ key_of flags str) × (payload ≡ q)

    module _ (free : get_or s.hashes k 0 ≡ 0) (pos : hash ≢ 0) where
      held_before :
          (h : ℕ) (str : List ℕ) (q : A) (i : ℕ)
          → Matches flags (put_slot s k hash string payload) size h str i
          → get_or (put_slot s k hash string payload).payloads i zeroed ≡ q
          → (k ≡ i) ⊎ (k ≢ i)
          → Added h str q ⊎ Holds flags zeroed size s h str q
      held_before h str q i m e (inl same) =
          let (h1, s1, p1) = put_self in
          let s' = put_slot s k hash string payload in
          inl (
            sym h1 ∙ ap (λ j. get_or s'.hashes j 0) same ∙ m.same_hash,
            ap (key_of flags) (sym s1 ∙ ap (λ j. get_or s'.strings j []) same) ∙ m.same_key,
            sym p1 ∙ ap (λ j. get_or s'.payloads j zeroed) same ∙ e,
          )
      held_before h str q i m e (inr ne) =
          let (h1, s1, p1) = put_ne i ne in
          inr (
            i,
            record {
              in_table = m.in_table;
              same_hash = sym h1 ∙ m.same_hash;
              same_key = ap (key_of flags) (sym s1) ∙ m.same_key;
            },
            sym p1 ∙ e,
          )

      held_after :
          (h : ℕ) (str : List ℕ) (q : A)
          → h ≢ 0
          → Added h str q ⊎ Holds flags zeroed size s h str q
          → Holds flags zeroed size (put_slot s k hash string payload) h str q
      held_after h str q hpos (inl (eh, es, ep)) =
          let (h1, s1, p1) = put_self in
          (
            k,
            record { in_table = hk; same_hash = h1 ∙ eh; same_key = ap (key_of flags) s1 ∙ es },
            p1 ∙ ep,
          )
      held_after h str q hpos (inr (i, m, e)) =
          let ne : k ≢ i =
            λ same. hpos (sym m.same_hash ∙ ap (λ j. get_or s.hashes j 0) (sym same) ∙ free) in
          let (h1, s1, p1) = put_ne i ne in
          (
            i,
            record {
              in_table = m.in_table;
              same_hash = h1 ∙ m.same_hash;
              same_key = ap (key_of flags) s1 ∙ m.same_key;
            },
            p1 ∙ e,
          )

      -- What the slots hold is what they held and the new key with its payload.
      pub put_slot-Holds :
          (h : ℕ) (str : List ℕ) (q : A)
          → h ≢ 0
          → Holds flags zeroed size (put_slot s k hash string payload) h str q
            ↔ (Added h str q ⊎ Holds flags zeroed size s h str q)
      put_slot-Holds h str q hpos =
          (λ (i, m, e). held_before h str q i m e (slot_cases k i), held_after h str q hpos)

      reached_after :
          (i : ℕ)
          → i < size
          → Run s.hashes size (first_index size hash) k
          → get_or (put_slot s k hash string payload).hashes i 0 ≢ 0
          → (k ≡ i) ⊎ (k ≢ i)
          → Run
              (put_slot s k hash string payload).hashes
              size
              (first_index size (get_or (put_slot s k hash string payload).hashes i 0))
              i
      unfolding put_slot
      reached_after i hi run taken (inl same) =
          let s' = put_slot s k hash string payload in
          subst (λ j. Run s'.hashes size (first_index size (get_or s'.hashes j 0)) j) same
            (subst (λ h. Run s'.hashes size (first_index size h) k) (sym put_self.0)
              (Run-put_slot s.hashes k hash free run))
      reached_after i hi run taken (inr ne) =
          let s' = put_slot s k hash string payload in
          let h1 = (put_ne i ne).0 in
          subst (λ h. Run s'.hashes size (first_index size h) i) (sym h1)
            (Run-put_slot s.hashes k hash free (v.reached i hi (λ e. taken (h1 ∙ e))))

      unique_after :
          (i j : ℕ)
          → i < size
          → j < size
          → get_or (put_slot s k hash string payload).hashes i 0 ≢ 0
          → get_or (put_slot s k hash string payload).hashes i 0
            ≡ get_or (put_slot s k hash string payload).hashes j 0
          → key_of flags (get_or (put_slot s k hash string payload).strings i [])
            ≡ key_of flags (get_or (put_slot s k hash string payload).strings j [])
          → ((i : ℕ) → Matches flags s size hash string i → ⊥)
          → (k ≡ i) ⊎ (k ≢ i)
          → (k ≡ j) ⊎ (k ≢ j)
          → i ≡ j
      unique_after i j hi hj taken eh es absent (inl a) (inl b) = sym a ∙ b
      unique_after i j hi hj taken eh es absent (inl a) (inr b) =
          let s' = put_slot s k hash string payload in
          let (h1, s1, p1) = put_self in
          let (h2, s2, p2) = put_ne j b in
          absurd (
            absent j (record {
              in_table = hj;
              same_hash = sym h2 ∙ sym eh ∙ ap (λ x. get_or s'.hashes x 0) (sym a) ∙ h1;
              same_key =
                  ap (key_of flags) (sym s2)
                  ∙ sym es
                  ∙ ap (key_of flags) (ap (λ x. get_or s'.strings x []) (sym a) ∙ s1);
            }))
      unique_after i j hi hj taken eh es absent (inr a) (inl b) =
          let s' = put_slot s k hash string payload in
          let (h1, s1, p1) = put_self in
          let (h2, s2, p2) = put_ne i a in
          absurd (
            absent i (record {
              in_table = hi;
              same_hash = sym h2 ∙ eh ∙ ap (λ x. get_or s'.hashes x 0) (sym b) ∙ h1;
              same_key =
                  ap (key_of flags) (sym s2)
                  ∙ es
                  ∙ ap (key_of flags) (ap (λ x. get_or s'.strings x []) (sym b) ∙ s1);
            }))
      unique_after i j hi hj taken eh es absent (inr a) (inr b) =
          let (h1, s1, p1) = put_ne i a in
          let (h2, s2, p2) = put_ne j b in
          v.unique i j hi hj (λ e. taken (h1 ∙ e)) (sym h1 ∙ eh ∙ h2)
            (ap (key_of flags) (sym s1) ∙ es ∙ ap (key_of flags) s2)

      pub put_slot-IsSlots :
          Run s.hashes size (first_index size hash) k
          → ((i : ℕ) → Matches flags s size hash string i → ⊥)
          → IsSlots flags zeroed size (put_slot s k hash string payload)
      unfolding put_slot
      put_slot-IsSlots run absent = record {
        hashes_length = length-set s.hashes k hash ∙ v.hashes_length;
        strings_length = length-set s.strings k string ∙ v.strings_length;
        payloads_length = length-set s.payloads k payload ∙ v.payloads_length;
        reached = λ i hi taken. reached_after i hi run taken (slot_cases k i);
        unique = λ i j hi hj taken eh es.
            unique_after i j hi hj taken eh es absent (slot_cases k i) (slot_cases k j);
      }

      pub put_occupied :
          occupied (put_slot s k hash string payload).hashes ≡ suc (occupied s.hashes)
      unfolding put_slot
      put_occupied = occupied-set s.hashes k hash (omega (arith, v.hashes_length)) free pos
