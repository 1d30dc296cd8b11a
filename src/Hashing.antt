-- ===== src/Hashing.antt =====
-- src/Hash.cpp and Hash.hpp: the buffering in front of the block function, the padding, and what
-- is fed to it. The block function and its state are those of the hash that the build is set up
-- for, HashSha1.cpp or HashFast.cpp; they are parameters here.
pub mod Absorb
pub mod Update
use tundra.Prelude.{
  ℕ, zero, suc, ◌+◌, ◌-◌, ◌*◌, ◌/◌, ◌%◌, ◌^◌, min, Bool, true, not, ◌&&◌, ◌||◌, List, [], ◌∷◌, ◌++◌,
  Option, none, some, if◌then◌else◌, ltb, leb, ◌==◌, length, take, drop, replicate, ◌>>=◌, ◌>>◌,
  check,
}

-- `buffer` is m_Buffer up to m_BufUsed.
pub record HashState {ℓ} (S : Type ℓ) : Type ℓ where
  pub impl : S
  pub msg_size : ℕ
  pub buffer : List ℕ

-- HashInit, with the state that HashInitImpl makes.
unfoldable pub hash_init {ℓ} : {S : Type ℓ} → S → HashState S
hash_init impl = record { impl = impl; msg_size = 0; buffer = [] }

-- FoldCase of Common.hpp
unfoldable pub fold_case : ℕ → ℕ
fold_case c = if leb b'A' c && leb c b'Z' then c + 0x20 else c

-- The bytes of a 64-bit number, the highest first.
unfoldable pub big_endian : ℕ → List ℕ
big_endian v =
    (v / 2 ^ 56 % 256)
    ∷ (v / 2 ^ 48 % 256)
    ∷ (v / 2 ^ 40 % 256)
    ∷ (v / 2 ^ 32 % 256)
    ∷ (v / 2 ^ 24 % 256)
    ∷ (v / 2 ^ 16 % 256)
    ∷ (v / 2 ^ 8 % 256)
    ∷ (v % 256)
    ∷ []

-- The null bytes that HashFinalize puts behind the one bit.
unfoldable pub padding : ℕ → List ℕ
padding used = if ltb used 56 then replicate (56 - used) 0 else replicate (64 - (used - 56)) 0

module _ {ℓ} {S : Type ℓ} (hash_block : S → List ℕ → S) where
  -- The loop of HashUpdate, with the block state, the buffer and the data that is left. A round
  -- takes at least one byte.
  unfoldable pub update_loop : ℕ → S → List ℕ → List ℕ → S × List ℕ
  update_loop zero impl buffer rest = (impl, buffer)
  update_loop (suc fuel) impl buffer [] = (impl, buffer)
  update_loop (suc fuel) impl buffer (d ∷ ds) =
      let rest = d ∷ ds in
      let copy_size : ℕ = min (length rest) (64 - length buffer) in
      let filled : List ℕ = buffer ++ take copy_size rest in
      let copied =
        update_loop fuel (if length filled == 64 then hash_block impl filled else impl)
          (if length filled == 64 then [] else filled) (drop copy_size rest) in
      let whole = update_loop fuel (hash_block impl (take 64 rest)) buffer (drop 64 rest) in
      if not (length buffer == 0) || ltb (length rest) 64 then copied else whole

  unfoldable pub hash_update : HashState S → List ℕ → HashState S
  hash_update self bytes =
      let (impl, buffer) = update_loop (length bytes) self.impl self.buffer bytes in
      record {
        impl = impl;
        msg_size = (self.msg_size + length bytes * 8) % 2 ^ 64;
        buffer = buffer;
      }

  -- HashAddStringFoldCase: an update for each byte.
  unfoldable pub hash_add_string_fold_case : HashState S → List ℕ → HashState S
  hash_add_string_fold_case self [] = self
  hash_add_string_fold_case self (c ∷ path) =
      hash_add_string_fold_case (hash_update self (fold_case c ∷ [])) path

  unfoldable pub hash_add_integer : HashState S → ℕ → HashState S
  unfolding big_endian
  hash_add_integer self value = hash_update self (big_endian value)

  unfoldable pub hash_add_separator : HashState S → HashState S
  hash_add_separator self = hash_update self (0 ∷ [])

  unfoldable pub hash_finalize {κ} : {D : Type κ} → (S → D) → HashState S → Option D
  hash_finalize finalize_impl self = do
    let one = hash_update self (0x80 ∷ [])
    let padded = hash_update one (padding (length one.buffer))
    check (length padded.buffer == 56)
    let counted = hash_update padded (big_endian self.msg_size)
    check (length counted.buffer == 0)
    some (finalize_impl counted.impl)

-- HashSingleString
unfoldable pub hash_single_string {ℓ κ} :
    {S : Type ℓ} {D : Type κ} → (S → List ℕ → S) → S → (S → D) → List ℕ → Option D
hash_single_string block init finalize_impl string =
    hash_finalize block finalize_impl (hash_update block (hash_init init) string)
