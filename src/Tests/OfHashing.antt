-- ===== src/Tests/OfHashing.antt =====
-- A block function that counts its blocks.
use tundra.Hashing.{HashState, hash_update, hash_finalize, padding, big_endian}
use tundra.Hashing.Update.{hash_update-append, hash_finalize-some}
use tundra.Prelude.{ℕ, suc, ◌≡◌, List, [], ◌∷◌, ◌++◌, some, arith}

abbrev count_blocks : ℕ → List ℕ → ℕ
count_blocks n block = suc n

abbrev started : HashState ℕ
started = record { impl = 0; msg_size = 0; buffer = [] }

hash_update-append_example :
    hash_update count_blocks (hash_update count_blocks started (1 ∷ [])) (2 ∷ 3 ∷ [])
    ≡ hash_update count_blocks started (1 ∷ 2 ∷ 3 ∷ [])
hash_update-append_example =
    hash_update-append count_blocks started (1 ∷ []) (2 ∷ 3 ∷ []) (omega arith)

hash_finalize-some_example :
    hash_finalize count_blocks (λ n. n) started
    ≡ some (hash_update count_blocks started (0x80 ∷ (padding 1 ++ big_endian 0))).impl
hash_finalize-some_example = hash_finalize-some count_blocks (λ n. n) started (omega arith)
