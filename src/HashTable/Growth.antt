-- ===== src/HashTable/Growth.antt =====
-- Growth: the new slots hold what the old ones held.
use tundra.Prelude.{
  ℕ, zero, suc, ◌≤◌, ◌<◌, ◌≡◌, ◌≢◌, ◌↔◌, ◌⊎◌, refl, sym, ap, ◌∙◌, inl, inr, List, [], some, ◌==◌,
  length, get_or, replicate, take, length-replicate, Bool-cases, arith,
}
use tundra.HashTable.{HashTableFlags, Slots, first_index, put_slot, rehash, rehash_slot}
use tundra.HashTable.Probe.{IsSize, Run}
use tundra.HashTable.Lookup.{key_of, Matches}
use tundra.HashTable.Occupied.{
  occupied, occupied-replicate, occupied-take, occupied-take_all, occupied-take_le,
}
use tundra.HashTable.Stored.{IsSlots, Holds, finds_free}
use tundra.HashTable.Place.{slot_cases, put_slot-Holds, put_slot-IsSlots, put_occupied}

get_or-replicate {ℓ} : {A : Type ℓ} (n : ℕ) (a : A) (i : ℕ) → get_or (replicate n a) i a ≡ a
get_or-replicate zero a i = refl
get_or-replicate (suc n) a zero = refl
get_or-replicate (suc n) a (suc i) = get_or-replicate n a i

none_below {ℓ} : {B : Type ℓ} (j : ℕ) → j < 0 → B
none_below j lt = absurd (omega arith)

module _ {ℓ} {A : Type ℓ} (flags : HashTableFlags) (zeroed : A) (old_size new_size : ℕ)
    (old : Slots A) (p : IsSize new_size) (v : IsSlots flags zeroed old_size old)
    (larger : old_size ≤ new_size) where
  -- One of the first old slots holds the key with the payload.
  abbrev HoldsBelow : ℕ → ℕ → List ℕ → A → Type ℓ
  HoldsBelow n hash string payload =
      (j : ℕ) × (j < n)
      × Matches flags old old_size hash string j
      × (get_or old.payloads j zeroed ≡ payload)

  -- The new slots hold what the first old ones do.
  record IsRehash (n : ℕ) (s : Slots A) : Type ℓ where
    formed : IsSlots flags zeroed new_size s
    count : occupied s.hashes ≡ occupied (take n old.hashes)
    same :
        (hash : ℕ) (string : List ℕ) (payload : A)
        → hash ≢ 0
        → Holds flags zeroed new_size s hash string payload ↔ HoldsBelow n hash string payload

  narrow :
      (i : ℕ) (hash : ℕ) (string : List ℕ) (payload : A) (j : ℕ)
      → j < suc i
      → Matches flags old old_size hash string j
      → get_or old.payloads j zeroed ≡ payload
      → (i ≡ j) ⊎ (i ≢ j)
      → ((get_or old.hashes i 0 ≡ hash)
          × (key_of flags (get_or old.strings i []) ≡ key_of flags string)
          × (get_or old.payloads i zeroed ≡ payload))
        ⊎ HoldsBelow i hash string payload
  narrow i hash string payload j lt m e (inl same) = inl (
    ap (λ x. get_or old.hashes x 0) same ∙ m.same_hash,
    ap (λ x. key_of flags (get_or old.strings x [])) same ∙ m.same_key,
    ap (λ x. get_or old.payloads x zeroed) same ∙ e,
  )
  narrow i hash string payload j lt m e (inr ne) = inr (j, ground arith, m, e)

  widen :
      (i : ℕ) (hash : ℕ) (string : List ℕ) (payload : A)
      → i < old_size
      → ((get_or old.hashes i 0 ≡ hash)
          × (key_of flags (get_or old.strings i []) ≡ key_of flags string)
          × (get_or old.payloads i zeroed ≡ payload))
        ⊎ HoldsBelow i hash string payload
      → HoldsBelow (suc i) hash string payload
  widen i hash string payload lt (inl (eh, es, ep)) =
      (i, omega arith, record { in_table = lt; same_hash = eh; same_key = es }, ep)
  widen i hash string payload lt (inr (j, below, m, e)) = (j, omega arith, m, e)

  not_here :
      (i : ℕ) (hash : ℕ) (string : List ℕ) (payload : A)
      → get_or old.hashes i 0 ≡ 0
      → hash ≢ 0
      → ((get_or old.hashes i 0 ≡ hash)
          × (key_of flags (get_or old.strings i []) ≡ key_of flags string)
          × (get_or old.payloads i zeroed ≡ payload))
        ⊎ HoldsBelow i hash string payload
      → HoldsBelow i hash string payload
  not_here i hash string payload free pos (inl (eh, es, ep)) = absurd (pos (sym eh ∙ free))
  not_here i hash string payload free pos (inr h) = h

  skipped :
      (i : ℕ) (s : Slots A)
      → i < old_size
      → get_or old.hashes i 0 ≡ 0
      → IsRehash i s
      → IsRehash (suc i) s
  skipped i s lt free r = record {
    formed = r.formed;
    count = ground (arith, r.count, occupied-take old.hashes i, v.hashes_length);
    same = λ hash string payload pos.
        let (to, from) = r.same hash string payload pos in
        (
          λ h. widen i hash string payload lt (inr (to h)),
          λ (j, below, m, e). from (
              not_here i hash string payload free pos
                (narrow i hash string payload j below m e (slot_cases i j))),
        );
  }

  absent :
      (i : ℕ) (s : Slots A)
      → i < old_size
      → get_or old.hashes i 0 ≢ 0
      → IsRehash i s
      → (j : ℕ) → Matches flags s new_size (get_or old.hashes i 0) (get_or old.strings i []) j
      → ⊥
  absent i s lt taken r j m =
      let (k, below, mk, e) =
        (r.same (get_or old.hashes i 0) (get_or old.strings i []) (get_or s.payloads j zeroed)
            taken).0
          (j, m, refl) in
      let same = v.unique i k lt mk.in_table taken (sym mk.same_hash) (sym mk.same_key) in
      omega arith

  added :
      (i : ℕ) (s : Slots A)
      → i < old_size
      → get_or old.hashes i 0 ≢ 0
      → (r : IsRehash i s) → (k : ℕ) (hk : k < new_size) → get_or s.hashes k 0 ≡ 0
      → Run s.hashes new_size (first_index new_size (get_or old.hashes i 0)) k
      → IsRehash (suc i) (
          put_slot s k
            (get_or old.hashes i 0)
            (get_or old.strings i [])
            (get_or old.payloads i zeroed))
  added i s lt taken r k hk free run =
      let h = get_or old.hashes i 0 in
      let str = get_or old.strings i [] in
      let q = get_or old.payloads i zeroed in
      record {
        formed =
            put_slot-IsSlots flags zeroed new_size s r.formed k h str q hk free taken run
              (absent i s lt taken r);
        count =
            put_occupied flags zeroed new_size s r.formed k h str q hk free taken
            ∙ ground (arith, r.count, occupied-take old.hashes i, v.hashes_length);
        same = λ hash string payload pos.
            let (to, from) = r.same hash string payload pos in
            let (out, back) =
              put_slot-Holds flags zeroed new_size s r.formed k h str q hk free taken hash string
                payload pos in
            (
              λ held.
                  widen i hash string payload lt
                    (elim (out held) [ inl a ↦ inl a | inr b ↦ inr (to b) ]),
              λ (j, below, m, e).
                  back (elim (narrow i hash string payload j below m e (slot_cases i j)) [
                    | inl a ↦ inl a
                    | inr b ↦ inr (from b)
                  ]),
            );
      }

  rehash_slot-IsRehash :
      (i : ℕ) (s : Slots A)
      → i < old_size
      → IsRehash i s
      → (s' : Slots A) × (rehash_slot zeroed new_size old i s ≡ some s') × IsRehash (suc i) s'
  unfolding rehash_slot
  rehash_slot-IsRehash i s lt r = elim (Bool-cases (get_or old.hashes i 0 == 0)) [
    | inl e ↦ (s, rw e refl, skipped i s lt (ground arith) r)
    | inr e ↦
        let taken : get_or old.hashes i 0 ≢ 0 = ground arith in
        let few = occupied-take_le old.hashes i in
        let (k, found, hk, free, run) =
          finds_free flags zeroed new_size s (get_or old.hashes i 0) p r.formed
            (omega (arith, r.count)) in
        (
          put_slot s k (get_or old.hashes i 0) (get_or old.strings i [])
              (get_or old.payloads i zeroed),
          rw (e, found) refl,
          added i s lt taken r k hk free run,
        )
  ]

  rehash-IsRehash :
      (n : ℕ)
      → n ≤ old_size
      → (s : Slots A) × (rehash zeroed new_size old n ≡ some s) × IsRehash n s
  unfolding rehash
  rehash-IsRehash zero le =
      let free : (i : ℕ) → get_or (replicate new_size 0) i 0 ≡ 0 = get_or-replicate new_size 0 in
      (
        _,
        refl,
        record {
          formed = record {
            hashes_length = length-replicate new_size 0;
            strings_length = length-replicate new_size [];
            payloads_length = length-replicate new_size zeroed;
            reached = λ i lt taken. absurd (taken (free i));
            unique = λ i j hi hj taken eh es. absurd (taken (free i));
          };
          count = occupied-replicate new_size;
          same = λ hash string payload pos. (
            λ (i, m, e). absurd (pos (sym m.same_hash ∙ free i)),
            λ (j, lt, m, e). none_below j lt,
          );
        },
      )
  rehash-IsRehash (suc n) le =
      let (s, e, r) = rehash-IsRehash n (omega arith) in
      let (s', e', r') = rehash_slot-IsRehash n s (omega arith) r in (s', rw e e', r')

  -- All the slots rehashed hold what the old ones held, and as many of them are taken.
  pub rehash-same :
      (s : Slots A) × (rehash zeroed new_size old old_size ≡ some s)
      × IsSlots flags zeroed new_size s
      × (occupied s.hashes ≡ occupied old.hashes)
      × ((hash : ℕ) (string : List ℕ) (payload : A)
          → hash ≢ 0
          → Holds flags zeroed new_size s hash string payload
            ↔ Holds flags zeroed old_size old hash string payload)
  rehash-same =
      let (s, e, r) = rehash-IsRehash old_size (omega arith) in
      let all : take old_size old.hashes ≡ take (length old.hashes) old.hashes =
        ap (λ n. take n old.hashes) (sym v.hashes_length) in
      (
        s,
        e,
        r.formed,
        r.count ∙ ap occupied all ∙ occupied-take_all old.hashes,
        λ hash string payload pos.
            let (to, from) = r.same hash string payload pos in
            (
              λ held. let (j, lt, m, q) = to held in (j, m, q),
              λ (j, m, q). from (j, m.in_table, m, q),
            ),
      )
