-- ===== src/HashTable/Walk.antt =====
-- The walk over a table.
use tundra.Prelude.{
  ℕ, zero, suc, ◌+◌, ◌≤◌, ◌<◌, true, ◌≡◌, ◌≢◌, ◌↔◌, refl, sym, ap, ◌∙◌, inl, inr, List, [], ◌∷◌,
  some, ◌==◌, length, take, get_or, Bool-cases, arith,
}
use tundra.HashTable.{HashTableFlags, Slots, HashTable, walk_loop, hash_table_walk}
use tundra.HashTable.Occupied.{occupied, occupied-take, occupied-take_all}
use tundra.HashTable.Contents.{IsTable}

module _ {ℓ} {A : Type ℓ} where
  -- The calls are numbered, from n on.
  abbrev pub Numbered : ℕ → List (ℕ × ℕ × List ℕ × A) → Type 0
  Numbered n [] = Unit
  Numbered n ((index, hash, string, payload) ∷ calls) = (index ≡ n) × Numbered (n + 1) calls

  -- There is a call with the hash, the string and the payload.
  pub data Called (hash : ℕ) (string : List ℕ) (payload : A)
      : List (ℕ × ℕ × List ℕ × A) → Type ℓ where
    now :
        {c : ℕ × ℕ × List ℕ × A} {calls : List (ℕ × ℕ × List ℕ × A)}
        → c.1 ≡ hash
        → c.2 ≡ string
        → c.3 ≡ payload
        → Called hash string payload (c ∷ calls)
    later :
        {c : ℕ × ℕ × List ℕ × A} {calls : List (ℕ × ℕ × List ℕ × A)}
        → Called hash string payload calls
        → Called hash string payload (c ∷ calls)

  no_call : {hash : ℕ} {string : List ℕ} {payload : A} → Called hash string payload [] → ⊥
  no_call c = elim c [ ]

module _ {ℓ} {A : Type ℓ} (zeroed : A) where
  -- A slot from i on, before the end, has the hash, the string and the payload.
  abbrev pub Stands : Slots A → ℕ → ℕ → ℕ → List ℕ → A → Type ℓ
  Stands s i end hash string payload =
      (j : ℕ) × (i ≤ j)
      × (j < end)
      × (get_or s.hashes j 0 ≡ hash)
      × (get_or s.strings j [] ≡ string)
      × (get_or s.payloads j zeroed ≡ payload)

  walk_loop-length :
      (s : Slots A) (left i n : ℕ)
      → i + left ≤ length s.hashes
      → length (walk_loop zeroed s left i n) + occupied (take i s.hashes)
        ≡ occupied (take (i + left) s.hashes)
  unfolding walk_loop
  walk_loop-length s zero i n le =
      let same = ap (λ k. occupied (take k s.hashes)) {x = i} {y = i + 0} (omega arith) in
      omega (arith, same)
  walk_loop-length s (suc left) i n le =
      let one = occupied-take s.hashes i (omega arith) in
      let behind =
        ap (λ k. occupied (take k s.hashes)) {x = i + 1 + left} {y = i + suc left} (omega arith) in
      let next = ap (λ k. occupied (take k s.hashes)) {x = suc i} {y = i + 1} (omega arith) in
      elim (Bool-cases (get_or s.hashes i 0 == 0)) [
        | inl e ↦
            let rest = walk_loop-length s left (i + 1) n (omega arith) in
            rw e (ground (arith, one, behind, rest, next))
        | inr e ↦
            let rest = walk_loop-length s left (i + 1) (n + 1) (omega arith) in
            rw e (ground (arith, one, behind, rest, next))
      ]

  walk_loop-Numbered : (s : Slots A) (left i n : ℕ) → Numbered n (walk_loop zeroed s left i n)
  unfolding walk_loop
  walk_loop-Numbered s zero i n = tt
  walk_loop-Numbered s (suc left) i n = elim (Bool-cases (get_or s.hashes i 0 == 0)) [
    | inl e ↦ rw e (walk_loop-Numbered s left (i + 1) n)
    | inr e ↦ rw e (refl, walk_loop-Numbered s left (i + 1) (n + 1))
  ]

  -- A slot further on is a slot from here on.
  further :
      (s : Slots A) (i left : ℕ) (hash : ℕ) (string : List ℕ) (payload : A)
      → Stands s (i + 1) (i + 1 + left) hash string payload
      → Stands s i (i + suc left) hash string payload
  further s i left hash string payload (j, lo, hi, h, str, p) =
      (j, omega arith, omega arith, h, str, p)

  Called-Stands :
      (s : Slots A) (i left n : ℕ) (hash : ℕ) (string : List ℕ) (payload : A)
      (calls : List (ℕ × ℕ × List ℕ × A))
      → (Called hash string payload calls → Stands s (i + 1) (i + 1 + left) hash string payload)
      → Called hash string payload
          ((n, get_or s.hashes i 0, get_or s.strings i [], get_or s.payloads i zeroed) ∷ calls)
      → Stands s i (i + suc left) hash string payload
  Called-Stands s i left n hash string payload calls rest (Called.now h str p) =
      (i, omega arith, omega arith, h, str, p)
  Called-Stands s i left n hash string payload calls rest (Called.later c) =
      further s i left hash string payload (rest c)

  walk_loop-Stands :
      (s : Slots A) (left i n : ℕ) (hash : ℕ) (string : List ℕ) (payload : A)
      → Called hash string payload (walk_loop zeroed s left i n)
      → Stands s i (i + left) hash string payload
  unfolding walk_loop
  walk_loop-Stands s zero i n hash string payload = λ c. absurd (no_call c)
  walk_loop-Stands s (suc left) i n hash string payload =
      elim (Bool-cases (get_or s.hashes i 0 == 0)) [
        | inl e ↦ rw e (λ c.
            further s i left hash string payload
              (walk_loop-Stands s left (i + 1) n hash string payload c))
        | inr e ↦ rw e (
            Called-Stands s i left n hash string payload (walk_loop zeroed s left (i + 1) (n + 1))
              (walk_loop-Stands s left (i + 1) (n + 1) hash string payload))
      ]

  here_or_further :
      (s : Slots A) (i left n : ℕ) (hash : ℕ) (string : List ℕ) (payload : A)
      (calls : List (ℕ × ℕ × List ℕ × A))
      → ((j : ℕ)
          → i + 1 ≤ j
          → j < i + 1 + left
          → get_or s.hashes j 0 ≡ hash
          → get_or s.strings j [] ≡ string
          → get_or s.payloads j zeroed ≡ payload
          → Called hash string payload calls)
      → (j : ℕ) → i ≤ j
      → j < i + suc left
      → get_or s.hashes j 0 ≡ hash
      → get_or s.strings j [] ≡ string
      → get_or s.payloads j zeroed ≡ payload
      → Called hash string payload
          ((n, get_or s.hashes i 0, get_or s.strings i [], get_or s.payloads i zeroed) ∷ calls)
  here_or_further s i left n hash string payload calls rest j lo hi h str p =
      elim (Bool-cases (i == j)) [
        | inl e ↦
            let same : j ≡ i = ground arith in
            Called.now (ap (λ k. get_or s.hashes k 0) (sym same) ∙ h)
              (ap (λ k. get_or s.strings k []) (sym same) ∙ str)
              (ap (λ k. get_or s.payloads k zeroed) (sym same) ∙ p)
        | inr e ↦ Called.later (rest j (ground arith) (omega arith) h str p)
      ]

  walk_loop-Called :
      (s : Slots A) (left i n : ℕ) (hash : ℕ) (string : List ℕ) (payload : A)
      → hash ≢ 0
      → (j : ℕ) → i ≤ j
      → j < i + left
      → get_or s.hashes j 0 ≡ hash
      → get_or s.strings j [] ≡ string
      → get_or s.payloads j zeroed ≡ payload
      → Called hash string payload (walk_loop zeroed s left i n)
  unfolding walk_loop
  walk_loop-Called s zero i n hash string payload pos j lo hi h str p = absurd (omega arith)
  walk_loop-Called s (suc left) i n hash string payload pos j lo hi h str p =
      elim (Bool-cases (get_or s.hashes i 0 == 0)) [
        | inl e ↦
            let ne : i ≢ j =
              λ same. pos (sym h ∙ ap (λ k. get_or s.hashes k 0) (sym same) ∙ ground arith) in
            rw e (
              walk_loop-Called s left (i + 1) n hash string payload pos j (ground arith)
                (omega arith) h str p)
        | inr e ↦ rw e (
            here_or_further s i left n hash string payload (walk_loop zeroed s left (i + 1) (n + 1))
              (walk_loop-Called s left (i + 1) (n + 1) hash string payload pos) j lo hi h str p)
      ]

module _ {ℓ} {A : Type ℓ} (flags : HashTableFlags) (zeroed : A) where
  -- The walk over a table passes its check, numbers its calls from zero on, makes one for each record
  -- counted, and calls with a hash that is not zero, a string and a payload exactly if a slot holds
  -- the three.
  pub hash_table_walk-Called :
      (t : HashTable A)
      → IsTable flags zeroed t
      → (calls : List (ℕ × ℕ × List ℕ × A)) × (hash_table_walk zeroed t ≡ some calls)
        × Numbered 0 calls
        × (length calls ≡ t.record_count)
        × ((hash : ℕ) (string : List ℕ) (payload : A)
            → hash ≢ 0
            → Called hash string payload calls
              ↔ Stands zeroed t.slots 0 t.table_size hash string payload)
  unfolding hash_table_walk
  hash_table_walk-Called t v =
      let calls = walk_loop zeroed t.slots t.table_size 0 0 in
      let all : take t.table_size t.slots.hashes ≡ take (length t.slots.hashes) t.slots.hashes =
        ap (λ n. take n t.slots.hashes) (sym v.formed.hashes_length) in
      let few =
        walk_loop-length zeroed t.slots t.table_size 0 0 (omega (arith, v.formed.hashes_length)) in
      let here =
        ap (λ n. occupied (take n t.slots.hashes)) {x = 0 + t.table_size} {y = t.table_size}
          (omega arith) in
      let counted : length calls ≡ t.record_count =
        omega (arith, few, here, ap occupied all, occupied-take_all t.slots.hashes, v.count) in
      let passes : (length calls == t.record_count) ≡ true = ground arith in
      (
        calls,
        rw passes refl,
        walk_loop-Numbered zeroed t.slots t.table_size 0 0,
        counted,
        λ hash string payload pos. (
          λ c.
              let (j, lo, hi, h, str, p) =
                walk_loop-Stands zeroed t.slots t.table_size 0 0 hash string payload c in
              (j, lo, omega arith, h, str, p),
          λ (j, lo, hi, h, str, p).
              walk_loop-Called zeroed t.slots t.table_size 0 0 hash string payload pos j lo
                (omega arith) h str p,
        ),
      )
