-- ===== src/HashTable/Size.antt =====
-- A table grows no further than its records need.
use mathlib.Core.Option.{some-injective}
use native.Mathlib.Nat.{pow-suc, div-add-mod, mul-le-mul_left}
use tundra.Prelude.Bits.{pow2_le}
use tundra.HashTable.{
  HashTable, first_index, find_free, rehash, new_shift, grow_to, hash_table_grow, load, insert_slot,
  hash_table_insert,
}
use tundra.Prelude.{
  ℕ, suc, ◌+◌, ◌*◌, ◌/◌, ◌%◌, ◌^◌, ◌≤◌, ◌<◌, max, ◌≡◌, sym, ap, subst, ◌∙◌, true, List, some, ltb,
  Bool-cases, bind-some, inl, inr, arith,
}

module _ {ℓ} {A : Type ℓ} where
  -- The table has at most 128 slots, or sixteen for each record more.
  abbrev pub IsLight : HashTable A → Type 0
  IsLight t = 2 ^ t.table_size_shift ≤ 128 + 16 * t.record_count

  pub IsLight-shift :
      (t : HashTable A) → t.record_count < 2 ^ 24 → IsLight t → t.table_size_shift ≤ 29
  IsLight-shift t few light = elim (Bool-cases (ltb 29 t.table_size_shift)) [
    | inl big ↦
        let more = pow2_le {i = 30} {j = t.table_size_shift} (ground (arith, big)) in
        absurd (omega (arith, more))
    | inr small ↦ ground (arith, small)
  ]

  insert_slot-size :
      (t t' : HashTable A) (hash : ℕ) (string : List ℕ) (payload : A)
      → insert_slot t hash string payload ≡ some t'
      → (t'.table_size_shift ≡ t.table_size_shift)
        × (t'.record_count ≡ (t.record_count + 1) % 2 ^ 32)
  unfolding insert_slot
  insert_slot-size t t' hash string payload h =
      let (i, found, e) =
        bind-some
          (find_free t.slots.hashes t.table_size t.table_size (first_index t.table_size hash)) h in
      let same = some-injective _ _ e in
      (ap (λ g. g.table_size_shift) (sym same), ap (λ g. g.record_count) (sym same))

  grow-size :
      (zeroed : A) (t g : HashTable A)
      → hash_table_grow zeroed t ≡ some g
      → (g.table_size_shift ≡ new_shift t) × (g.record_count ≡ t.record_count)
  unfolding hash_table_grow grow_to
  grow-size zeroed t g h =
      let (s, found, e) =
        bind-some (rehash zeroed (2 ^ new_shift t % 2 ^ 32) t.slots t.table_size) h in
      let same = some-injective _ _ e in
      (ap (λ z. z.table_size_shift) (sym same), ap (λ z. z.record_count) (sym same))

  -- Growing from a load above 80 in 256.
  grown_light :
      (t : HashTable A)
      → t.record_count < 2 ^ 24
      → ltb 0x050 (load t) ≡ true
      → 2 ^ new_shift t ≤ 128 + 16 * (t.record_count + 1)
  unfolding load new_shift
  grown_light t few heavy =
      let n = 2 ^ t.table_size_shift in
      let whole : (t.record_count + 1) % 2 ^ 32 ≡ t.record_count + 1 = omega arith in
      let low : 81 ≤ 0x100 * (t.record_count + 1) / n =
        subst (λ c. 81 ≤ 0x100 * c / n) whole (ground (arith, heavy)) in
      let back = div-add-mod (0x100 * (t.record_count + 1)) n in
      let more = mul-le-mul_left n low in
      let full : n * 81 ≤ 0x100 * (t.record_count + 1) = omega (arith, back, more) in
      elim (Bool-cases (ltb 5 t.table_size_shift)) [
        | inl big ↦
            let e : max (t.table_size_shift + 2) 7 ≡ suc (suc t.table_size_shift) =
              ground (arith, big) in
            let four : 2 ^ max (t.table_size_shift + 2) 7 ≡ 4 * n =
              ap (λ k. 2 ^ k) e
              ∙ omega (arith, pow-suc 2 (suc t.table_size_shift), pow-suc 2 t.table_size_shift) in
            omega (arith, four, full)
        | inr small ↦
            let e : max (t.table_size_shift + 2) 7 ≡ 7 = ground (arith, small) in
            let seven : 2 ^ max (t.table_size_shift + 2) 7 ≡ 128 = ap (λ k. 2 ^ k) e in
            omega (arith, seven)
      ]

  -- An insertion into a table of fewer than 2^24 records counts one more, and leaves a table that
  -- has not grown without need.
  pub hash_table_insert-IsLight :
      (zeroed : A) (t t' : HashTable A) (hash : ℕ) (string : List ℕ) (payload : A)
      → hash_table_insert zeroed t hash string payload ≡ some t'
      → t.record_count < 2 ^ 24
      → IsLight t
      → (t'.record_count ≡ t.record_count + 1) × IsLight t'
  unfolding hash_table_insert
  hash_table_insert-IsLight zeroed t t' hash string payload =
      elim (Bool-cases (ltb 0x050 (load t))) [
        | inl heavy ↦ rw heavy (λ h few light.
            let (g, grown, e) = bind-some (hash_table_grow zeroed t) h in
            let gs = grow-size zeroed t g grown in
            let is = insert_slot-size g t' hash string payload e in
            let shift = ap (λ k. 2 ^ k) (is.0 ∙ gs.0) in
            let bound = grown_light t few heavy in
            (omega (arith, gs.1, is.1), omega (arith, shift, bound, gs.1, is.1)))
        | inr calm ↦ rw calm (λ h few light.
            let is = insert_slot-size t t' hash string payload h in
            let shift = ap (λ k. 2 ^ k) is.0 in (omega (arith, is.1), omega (arith, shift, is.1)))
      ]
