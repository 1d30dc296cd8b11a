-- ===== src/FileSign/Reading.antt =====
-- The loop of fread over a file whose digest is computed, and one update by the whole content.
use tundra.Hashing.{HashState, hash_update}
use tundra.Hashing.Update.{
  IsHashState, hash_update-IsHashState, hash_update-append, hash_update-nil,
}
use tundra.FileSign.{read_size, hash_file}
use tundra.Prelude.{
  ℕ, zero, suc, ◌^◌, ◌<◌, ◌≡◌, refl, sym, ap, ◌∙◌, false, List, [], ◌∷◌, ◌++◌, ◌==◌, length, take,
  drop, length-take, length-drop, arith,
}

take-drop : (n : ℕ) (xs : List ℕ) → take n xs ++ drop n xs ≡ xs
take-drop zero xs = refl
take-drop (suc n) [] = refl
take-drop (suc n) (x ∷ xs) = ap (λ l. x ∷ l) (take-drop n xs)

module _ {ℓ} {S : Type ℓ} (hash_block : S → List ℕ → S) where
  size_below :
      (h : HashState S) (bytes : List ℕ) → (hash_update hash_block h bytes).msg_size < 2 ^ 64
  unfolding hash_update
  size_below h bytes = omega arith

  -- Feeding a file chunk by chunk is one update by its whole content.
  pub hash_file-update :
      (fuel : ℕ) (h : HashState S) (rest : List ℕ)
      → IsHashState h
      → h.msg_size < 2 ^ 64
      → length rest < fuel
      → hash_file hash_block fuel h rest ≡ hash_update hash_block h rest
  unfolding hash_file
  hash_file-update zero h rest v low lt = absurd (omega arith)
  hash_file-update (suc fuel) h [] v low lt = sym (hash_update-nil hash_block h v low)
  hash_file-update (suc fuel) h (x ∷ xs) v low lt =
      let rest : List ℕ = x ∷ xs in
      let chunk : List ℕ = take read_size rest in
      let some_read : (length chunk == 0) ≡ false = ground (arith, length-take read_size rest) in
      let h' = hash_update hash_block h chunk in
      rw some_read (
        hash_file-update fuel h' (drop read_size rest)
          (hash_update-IsHashState hash_block h chunk v).0 (size_below h chunk)
          (omega (arith, length-drop read_size rest))
        ∙ hash_update-append hash_block h chunk (drop read_size rest) v
        ∙ ap (λ l. hash_update hash_block h l) (take-drop read_size rest))
