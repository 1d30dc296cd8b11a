-- ===== src/Hashing/Update.antt =====
-- What a digest depends on: the bytes that were fed, and not how they were cut into updates.
use tundra.Hashing.{
  HashState, hash_update, hash_add_string_fold_case, fold_case, hash_finalize, padding, big_endian,
}
use tundra.Hashing.Absorb.{absorb, absorb-append, update_loop-absorb, length-absorb}
use tundra.Prelude.{
  ℕ, ◌+◌, ◌-◌, ◌*◌, ◌%◌, ◌^◌, ◌<◌, ◌≡◌, refl, sym, ap, ◌∙◌, List, [], ◌∷◌, ◌++◌, map, some, length,
  length-append, length-replicate, ◌==◌, true, arith,
}

-- The buffer has room for a byte, as between any two calls.
abbrev pub IsHashState {ℓ} : {S : Type ℓ} → HashState S → Type 0
IsHashState h = length h.buffer < 64

sizes : (m a b : ℕ) → ((m + a * 8) % 2 ^ 64 + b * 8) % 2 ^ 64 ≡ (m + (a + b) * 8) % 2 ^ 64
sizes m a b = omega arith

length-padding : (used : ℕ) → used < 64 → (used + length (padding used)) % 64 ≡ 56
unfolding padding
length-padding used h =
    ground
      (arith, length-replicate {A = ℕ} (56 - used) 0, length-replicate {A = ℕ} (64 - (used - 56)) 0)

length-big_endian : (v : ℕ) → length (big_endian v) ≡ 8
unfolding big_endian
length-big_endian v = refl

module _ {ℓ} {S : Type ℓ} (hash_block : S → List ℕ → S) where
  hash_update-absorb :
      (self : HashState S) (bytes : List ℕ)
      → IsHashState self
      → hash_update hash_block self bytes ≡ record {
        impl = (absorb hash_block self.impl self.buffer bytes).0;
        msg_size = (self.msg_size + length bytes * 8) % 2 ^ 64;
        buffer = (absorb hash_block self.impl self.buffer bytes).1;
      }
  unfolding hash_update
  hash_update-absorb self bytes v =
      rw (update_loop-absorb hash_block (length bytes) self.impl self.buffer bytes (omega arith) v)

  -- An update keeps the buffer within its bounds and counts its bytes round the block.
  pub hash_update-IsHashState :
      (self : HashState S) (bytes : List ℕ)
      → IsHashState self
      → IsHashState (hash_update hash_block self bytes)
        × (length (hash_update hash_block self bytes).buffer
            ≡ (length self.buffer + length bytes) % 64)
  hash_update-IsHashState self bytes v =
      let len = length-absorb hash_block self.impl self.buffer bytes v in
      rw (hash_update-absorb self bytes v) (omega (arith, len), len)

  -- From a state whose buffer has room, two updates one after the other leave the state that one
  -- update by all their bytes leaves.
  pub hash_update-append :
      (self : HashState S) (xs ys : List ℕ)
      → IsHashState self
      → hash_update hash_block (hash_update hash_block self xs) ys
        ≡ hash_update hash_block self (xs ++ ys)
  hash_update-append self xs ys v =
      rw
        (
          hash_update-absorb (hash_update hash_block self xs) ys
              (hash_update-IsHashState self xs v).0,
          hash_update-absorb self xs v,
          hash_update-absorb self (xs ++ ys) v,
          absorb-append,
          length-append,
        )
        (λ i. record {
          impl =
              (absorb hash_block (absorb hash_block self.impl self.buffer xs).0
                (absorb hash_block self.impl self.buffer xs).1 ys).0;
          msg_size = sizes self.msg_size (length xs) (length ys) i;
          buffer =
              (absorb hash_block (absorb hash_block self.impl self.buffer xs).0
                (absorb hash_block self.impl self.buffer xs).1 ys).1;
        })

  pub hash_update-nil :
      (self : HashState S)
      → IsHashState self
      → self.msg_size < 2 ^ 64
      → hash_update hash_block self [] ≡ self
  unfolding absorb
  hash_update-nil self v h =
      let same : (self.msg_size + 0 * 8) % 2 ^ 64 ≡ self.msg_size = omega arith in
      hash_update-absorb self [] v ∙ (λ i. record self { msg_size = same i })

  -- From a state whose buffer has room and whose size is a 64-bit number, case-folded text is
  -- hashed as the text of its folded bytes.
  pub hash_add_string_fold_case-map :
      (self : HashState S) (path : List ℕ)
      → IsHashState self
      → self.msg_size < 2 ^ 64
      → hash_add_string_fold_case hash_block self path
        ≡ hash_update hash_block self (map fold_case path)
  unfolding hash_add_string_fold_case
  hash_add_string_fold_case-map self [] v h = sym (hash_update-nil self v h)
  hash_add_string_fold_case-map self (c ∷ path) v h =
      hash_add_string_fold_case-map (hash_update hash_block self (fold_case c ∷ [])) path
        (hash_update-IsHashState self (fold_case c ∷ []) v).0
        (rw (hash_update-absorb self (fold_case c ∷ []) v) (omega arith))
      ∙ hash_update-append self (fold_case c ∷ []) (map fold_case path) v

  -- Finalizing meets both of its checks from any state whose buffer has room, and gives what the
  -- block function makes of the bytes behind the last block, a one bit, the null bytes and the
  -- message's size.
  pub hash_finalize-some {κ} :
      {D : Type κ} (finalize_impl : S → D) (self : HashState S)
      → IsHashState self
      → hash_finalize hash_block finalize_impl self
        ≡ some (
            finalize_impl
              (hash_update hash_block self (
                0x80 ∷ (padding ((length self.buffer + 1) % 64) ++ big_endian self.msg_size))).impl)
  unfolding hash_finalize
  hash_finalize-some finalize_impl self v =
      let one = hash_update hash_block self (0x80 ∷ []) in
      let pad = padding (length one.buffer) in
      let padded = hash_update hash_block one pad in
      let count = big_endian self.msg_size in
      let one_ok = hash_update-IsHashState self (0x80 ∷ []) v in
      let padded_ok = hash_update-IsHashState one pad one_ok.0 in
      let counted_ok = hash_update-IsHashState padded count padded_ok.0 in
      let full : length padded.buffer ≡ 56 =
        padded_ok.1 ∙ length-padding (length one.buffer) one_ok.0 in
      let whole : hash_update hash_block padded count
          ≡ hash_update hash_block self (0x80 ∷ (pad ++ count)) =
        hash_update-append one pad count one_ok.0
        ∙ hash_update-append self (0x80 ∷ []) (pad ++ count) v in
      let c1 : (length padded.buffer == 56) ≡ true = ground (arith, full) in
      let c2 : (length (hash_update hash_block padded count).buffer == 0) ≡ true =
        ground (arith, full, counted_ok.1, length-big_endian self.msg_size) in
      rw (c1, c2)
        (ap (λ h. some (finalize_impl h.impl)) whole
          ∙ ap
              (λ n.
                some
                  (finalize_impl (hash_update hash_block self (0x80 ∷ (padding n ++ count))).impl))
              one_ok.1)
