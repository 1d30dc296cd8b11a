-- ===== src/StringHash.antt =====
-- The string hashes of src/Common.cpp, on strings as lists of their bytes.
use tundra.Hashing.{fold_case}
use tundra.HashTable.{HashTableFlags}
use tundra.HashTable.Lookup.{key_of}
use tundra.Prelude.{
  ℕ, ◌+◌, ◌*◌, ◌%◌, ◌^◌, ◌≡◌, ◌≢◌, refl, ap, ◌∙◌, sym, List, [], ◌∷◌, map, if◌then◌else◌, ◌==◌,
  arith,
}

-- `hash = (hash * 33) + c` in a word of w bits, for each byte.
unfoldable pub djb2_loop : ℕ → ℕ → List ℕ → ℕ
djb2_loop w hash [] = hash
djb2_loop w hash (c ∷ str) = djb2_loop w ((hash * 33 + c) % 2 ^ w) str

unfoldable pub djb2_loop_no_case : ℕ → ℕ → List ℕ → ℕ
unfolding fold_case
djb2_loop_no_case w hash [] = hash
djb2_loop_no_case w hash (c ∷ str) = djb2_loop_no_case w ((hash * 33 + fold_case c) % 2 ^ w) str

-- `hash ? hash : 1`
unfoldable pub not_zero : ℕ → ℕ
not_zero hash = if hash == 0 then 1 else hash

unfoldable pub djb2_hash : List ℕ → ℕ
unfolding djb2_loop not_zero
djb2_hash str = not_zero (djb2_loop 32 5381 str)

unfoldable pub djb2_hash64 : List ℕ → ℕ
unfolding djb2_loop not_zero
djb2_hash64 str = not_zero (djb2_loop 64 5381 str)

unfoldable pub djb2_hash_no_case : List ℕ → ℕ
unfolding djb2_loop_no_case not_zero
djb2_hash_no_case str = not_zero (djb2_loop_no_case 32 5381 str)

unfoldable pub djb2_hash_no_case64 : List ℕ → ℕ
unfolding djb2_loop_no_case not_zero
djb2_hash_no_case64 str = not_zero (djb2_loop_no_case 64 5381 str)

-- Djb2HashPath and kFlagPathStrings are chosen together, by TUNDRA_CASE_INSENSITIVE_FILESYSTEM.
unfoldable pub djb2_hash_path : HashTableFlags → List ℕ → ℕ
unfolding djb2_hash djb2_hash_no_case
djb2_hash_path HashTableFlags.flag_case_sensitive str = djb2_hash str
djb2_hash_path HashTableFlags.flag_case_insensitive str = djb2_hash_no_case str

-- Djb2HashPath64
unfoldable pub djb2_hash_path64 : HashTableFlags → List ℕ → ℕ
unfolding djb2_hash64 djb2_hash_no_case64
djb2_hash_path64 HashTableFlags.flag_case_sensitive str = djb2_hash64 str
djb2_hash_path64 HashTableFlags.flag_case_insensitive str = djb2_hash_no_case64 str

djb2_loop_no_case-map :
    (w hash : ℕ) (str : List ℕ)
    → djb2_loop_no_case w hash str ≡ djb2_loop w hash (map fold_case str)
unfolding djb2_loop djb2_loop_no_case
djb2_loop_no_case-map w hash [] = refl
djb2_loop_no_case-map w hash (c ∷ str) =
    djb2_loop_no_case-map w ((hash * 33 + fold_case c) % 2 ^ w) str

-- Hashing without case is hashing the folded string, in both widths.
pub djb2_hash_no_case-map :
    (str : List ℕ)
    → (djb2_hash_no_case str ≡ djb2_hash (map fold_case str))
      × (djb2_hash_no_case64 str ≡ djb2_hash64 (map fold_case str))
unfolding djb2_hash djb2_hash_no_case djb2_hash64 djb2_hash_no_case64
djb2_hash_no_case-map str = (
  ap not_zero (djb2_loop_no_case-map 32 5381 str),
  ap not_zero (djb2_loop_no_case-map 64 5381 str),
)

not_zero_lem : (hash : ℕ) → not_zero hash ≢ 0
unfolding not_zero
not_zero_lem hash = ground arith

-- No path has the hash that marks a free slot.
pub djb2_hash_path_pos : (flags : HashTableFlags) (str : List ℕ) → djb2_hash_path flags str ≢ 0
unfolding djb2_hash_path
djb2_hash_path_pos HashTableFlags.flag_case_sensitive str = not_zero_lem (djb2_loop 32 5381 str)
djb2_hash_path_pos HashTableFlags.flag_case_insensitive str =
    not_zero_lem (djb2_loop_no_case 32 5381 str)

-- Strings that a table takes for the same have the same hash.
pub djb2_hash_path-key_of :
    (flags : HashTableFlags) (a b : List ℕ)
    → key_of flags a ≡ key_of flags b
    → djb2_hash_path flags a ≡ djb2_hash_path flags b
unfolding djb2_hash_path
djb2_hash_path-key_of HashTableFlags.flag_case_sensitive a b e = ap djb2_hash e
djb2_hash_path-key_of HashTableFlags.flag_case_insensitive a b e =
    (djb2_hash_no_case-map a).0 ∙ ap djb2_hash e ∙ sym (djb2_hash_no_case-map b).0
