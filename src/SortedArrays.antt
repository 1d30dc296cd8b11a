-- ===== src/SortedArrays.antt =====
-- src/SortedArrayUtil.hpp: the merge of two sorted arrays and the binary search; and the order of
-- digests on which both rest (CompareHashDigests of src/Hash.hpp).
pub mod Digests
pub mod Merge
pub mod Search
use Prim.Native.Nat.{compare, Ordering}
use tundra.Prelude.{
  ℕ, ◌+◌, ◌*◌, ◌^◌, Bool, true, false, not, ◌&&◌, List, [], ◌∷◌, Option, none, some, if◌then◌else◌,
  ltb, ◌==◌, length, get_or,
}

-- A SHA-1 HashDigest, by its words as LoadBigEndian64 and LoadBigEndian32 give them.
pub record HashDigest : Type 0 where
  pub a : ℕ
  pub b : ℕ
  pub c : ℕ

-- CompareHashDigests, without its check against memcmp: `(l > r) - (l < r)` is `compare l r`; the
-- first difference decides.
unfoldable pub compare_hash_digests : HashDigest → HashDigest → Ordering
compare_hash_digests l r = elim (compare l.a r.a) [
  | Ordering.eq ↦ elim (compare l.b r.b) [ Ordering.eq ↦ compare l.c r.c | res1 ↦ res1 ]
  | res0 ↦ res0
]

-- A call of one of the two callbacks, with the key at the index that it is given.
pub data Visit : Type 0 where
  first second : ℕ → Visit

-- TraverseSortedArraysImpl over what is left of the two arrays, by their keys.
unfoldable pub traverse : List ℕ → List ℕ → List Visit
traverse [] [] = []
traverse [] (y ∷ ys) = Visit.second y ∷ traverse [] ys
traverse (x ∷ xs) [] = Visit.first x ∷ traverse xs []
traverse (x ∷ xs) (y ∷ ys) = elim (compare x y) [
  | Ordering.lt ↦ Visit.first x ∷ traverse xs (y ∷ ys)
  | Ordering.eq ↦ Visit.first x ∷ traverse xs ys
  | Ordering.gt ↦ Visit.second y ∷ traverse (x ∷ xs) ys
]

-- BinarySearch, over the result of std::lower_bound. The pointer is an index.
unfoldable pub binary_search : (List ℕ → ℕ → ℕ) → List ℕ → ℕ → Option ℕ
binary_search lower_bound table key =
    if ltb 0 (length table)
    then (if not (lower_bound table key == length table)
          && get_or table (lower_bound table key) 0 == key
        then some (lower_bound table key)
        else none)
    else none
