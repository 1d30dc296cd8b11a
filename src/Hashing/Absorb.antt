-- ===== src/Hashing/Absorb.antt =====
-- The loop of HashUpdate takes bytes as if they came one by one.
use tundra.Hashing.{update_loop}
use tundra.Prelude.{
  ℕ, zero, suc, ◌+◌, ◌-◌, ◌%◌, ◌≤◌, ◌<◌, min, ◌≡◌, refl, sym, ap, ◌∙◌, List, [], ◌∷◌, ◌++◌,
  append_assoc, append-nil, if◌then◌else◌, ltb, ◌==◌, length, take, drop, length-append,
  length-take, length-drop, Bool-cases, inl, inr, true, false, not, ◌||◌, arith,
}

abbrev pub next_buffer : List ℕ → ℕ → List ℕ
next_buffer buffer d = if length buffer == 63 then [] else buffer ++ d ∷ []

short : (xs : List ℕ) → length xs ≤ 64 → length (if length xs == 64 then [] else xs) < 64
short xs h = elim (Bool-cases (length xs == 64)) [
  | inl e ↦ rw e (omega arith)
  | inr e ↦ rw e (ground arith)
]

eq-nil : (xs : List ℕ) → length xs ≡ 0 → xs ≡ []
eq-nil [] h = refl
eq-nil (x ∷ xs) h = absurd (omega arith)

module _ {ℓ} {S : Type ℓ} (hash_block : S → List ℕ → S) where
  abbrev pub next_impl : S → List ℕ → ℕ → S
  next_impl impl buffer d = if length buffer == 63 then hash_block impl (buffer ++ d ∷ []) else impl

  -- One byte at a time: a block is hashed when its last byte comes.
  unfoldable pub absorb : S → List ℕ → List ℕ → S × List ℕ
  absorb impl buffer [] = (impl, buffer)
  absorb impl buffer (d ∷ ds) = absorb (next_impl impl buffer d) (next_buffer buffer d) ds

  pub absorb-append :
      (impl : S) (buffer xs ys : List ℕ)
      → absorb impl buffer (xs ++ ys)
        ≡ absorb (absorb impl buffer xs).0 (absorb impl buffer xs).1 ys
  unfolding absorb
  absorb-append impl buffer [] ys = refl
  absorb-append impl buffer (x ∷ xs) ys =
      absorb-append (next_impl impl buffer x) (next_buffer buffer x) xs ys

  -- A part that does not fill the block is only stored.
  absorb-store :
      (n : ℕ) (impl : S) (buffer rest : List ℕ)
      → n ≤ length rest
      → length buffer + n < 64
      → absorb impl buffer rest ≡ absorb impl (buffer ++ take n rest) (drop n rest)
  unfolding absorb
  absorb-store zero impl buffer rest h k = rw append-nil
  absorb-store (suc n) impl buffer [] h k = absurd (omega arith)
  absorb-store (suc n) impl buffer (d ∷ ds) h k =
      let ih =
        absorb-store n impl (buffer ++ d ∷ []) ds (omega arith)
          (omega (arith, length-append buffer (d ∷ []))) in
      let ne : (length buffer == 63) ≡ false = ground arith in
      rw ne (ih ∙ ap (λ b. absorb impl b (drop n ds)) (append_assoc buffer (d ∷ []) (take n ds)))

  -- A part that fills the block is hashed with what was stored.
  absorb-fill :
      (n : ℕ) (impl : S) (buffer rest : List ℕ)
      → suc n ≤ length rest
      → length buffer + suc n ≡ 64
      → absorb impl buffer rest
        ≡ absorb (hash_block impl (buffer ++ take (suc n) rest)) [] (drop (suc n) rest)
  unfolding absorb
  absorb-fill n impl buffer [] h k = absurd (omega arith)
  absorb-fill zero impl buffer (d ∷ ds) h k =
      let eq : (length buffer == 63) ≡ true = ground arith in rw eq
  absorb-fill (suc n) impl buffer (d ∷ ds) h k =
      let ih =
        absorb-fill n impl (buffer ++ d ∷ []) ds (omega arith)
          (omega (arith, length-append buffer (d ∷ []))) in
      let ne : (length buffer == 63) ≡ false = ground arith in
      rw ne (
        ih
        ∙ ap (λ b. absorb (hash_block impl b) [] (drop (suc n) ds))
            (append_assoc buffer (d ∷ []) (take (suc n) ds)))

  -- One round that copies.
  absorb-chunk :
      (n : ℕ) (impl : S) (buffer rest : List ℕ)
      → 0 < n
      → n ≤ length rest
      → length buffer + n ≤ 64
      → absorb
          (if length (buffer ++ take n rest) == 64
            then hash_block impl (buffer ++ take n rest)
            else impl)
          (if length (buffer ++ take n rest) == 64 then [] else buffer ++ take n rest)
          (drop n rest)
        ≡ absorb impl buffer rest
  absorb-chunk zero impl buffer rest p h k = absurd (omega arith)
  absorb-chunk (suc n) impl buffer rest p h k =
      let len : length (buffer ++ take (suc n) rest) ≡ length buffer + suc n =
        omega (arith, length-append buffer (take (suc n) rest), length-take (suc n) rest) in
      elim (Bool-cases (length (buffer ++ take (suc n) rest) == 64)) [
        | inl e ↦ rw e (sym (absorb-fill n impl buffer rest h (ground arith)))
        | inr e ↦ rw e (sym (absorb-store (suc n) impl buffer rest h (ground arith)))
      ]

  -- With fuel for each byte the loop takes all of them.
  pub update_loop-absorb :
      (fuel : ℕ) (impl : S) (buffer rest : List ℕ)
      → length rest ≤ fuel
      → length buffer < 64
      → update_loop hash_block fuel impl buffer rest ≡ absorb impl buffer rest
  unfolding update_loop absorb
  update_loop-absorb zero impl buffer [] h k = refl
  update_loop-absorb zero impl buffer (d ∷ ds) h k = absurd (omega arith)
  update_loop-absorb (suc fuel) impl buffer [] h k = refl
  update_loop-absorb (suc fuel) impl buffer (d ∷ ds) h k =
      let rest = d ∷ ds in
      let n : ℕ = min (length rest) (64 - length buffer) in
      elim (Bool-cases (not (length buffer == 0) || ltb (length rest) 64)) [
        | inl e ↦ rw e (
            update_loop-absorb fuel _ _ (drop n rest) (omega (arith, length-drop n rest)) (
              short (buffer ++ take n rest)
                (omega (arith, length-append buffer (take n rest), length-take n rest)))
            ∙ absorb-chunk n impl buffer rest (omega arith) (omega arith) (omega arith))
        | inr e ↦
            let nil : buffer ≡ [] = eq-nil buffer (ground arith) in
            let block = hash_block impl (d ∷ take 63 ds) in
            rw e (
              update_loop-absorb fuel block buffer (drop 63 ds) (omega (arith, length-drop 63 ds)) k
              ∙ ap (λ b. absorb block b (drop 63 ds)) nil
              ∙ sym (
                  absorb-fill 63 impl buffer rest (ground arith) (ground arith)
                  ∙ ap (λ b. absorb (hash_block impl (b ++ take 64 rest)) [] (drop 64 rest)) nil))
      ]

  pub length-absorb :
      (impl : S) (buffer rest : List ℕ)
      → length buffer < 64
      → length (absorb impl buffer rest).1 ≡ (length buffer + length rest) % 64
  unfolding absorb
  length-absorb impl buffer [] h = omega arith
  length-absorb impl buffer (d ∷ ds) h = ground (
    arith,
    length-absorb (next_impl impl buffer d) (next_buffer buffer d) ds,
    length-append buffer (d ∷ []),
    ap (length {A = ℕ}) {x = next_buffer buffer d} {y = buffer ++ d ∷ []},
  )
