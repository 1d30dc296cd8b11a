-- ===== src/SortedArrays/Digests.antt =====
-- The order of digests is that of the 160-bit numbers that their bytes spell.
use Prim.Native.Nat.{compare}
use tundra.SortedArrays.{HashDigest, compare_hash_digests}
use tundra.Prelude.{ℕ, ◌+◌, ◌*◌, ◌^◌, ◌<◌, ◌≡◌, arith}

-- The words are in the range of their types.
pub record IsDigest (d : HashDigest) : Type 0 where
  pub a_lt : d.a < 2 ^ 64
  pub b_lt : d.b < 2 ^ 64
  pub c_lt : d.c < 2 ^ 32

-- The digest's twenty bytes as one number, the first byte the highest.
abbrev pub number : HashDigest → ℕ
number d = (d.a * 2 ^ 64 + d.b) * 2 ^ 32 + d.c

-- Comparing digests word by word, each word in the range of its type, compares them as numbers of
-- 160 bits.
pub compare_hash_digests-number :
    (l r : HashDigest)
    → IsDigest l
    → IsDigest r
    → compare_hash_digests l r ≡ compare (number l) (number r)
unfolding compare_hash_digests
compare_hash_digests-number l r hl hr = ground arith
