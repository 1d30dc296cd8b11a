-- ===== src/Tests/OfArrays.antt =====
-- Merging {1, 3} with {3, 4}, and a search in {1, 3, 4}.
use Prim.Native.Nat.{compare, max}
use tundra.SortedArrays.{HashDigest, compare_hash_digests, traverse}
use tundra.SortedArrays.Digests.{number, compare_hash_digests-number}
use tundra.SortedArrays.Merge.{
  count, keys, seconds, IsIncreasing, traverse-IsIncreasing, count-traverse,
}
use tundra.SortedArrays.Search.{IsSorted}
use tundra.Prelude.{ℕ, zero, suc, ◌^◌, ◌-◌, ◌≤◌, ◌<◌, ◌≡◌, refl, List, [], ◌∷◌, get_or, arith}

abbrev left : List ℕ
left = 1 ∷ 3 ∷ []

abbrev right : List ℕ
right = 3 ∷ 4 ∷ []

traverse_runs : keys (traverse left right) ≡ 1 ∷ 3 ∷ 4 ∷ []
unfolding traverse keys
traverse_runs = refl

traverse-IsIncreasing_example : IsIncreasing (keys (traverse left right))
traverse-IsIncreasing_example = traverse-IsIncreasing left right (omega arith) (omega arith)

count-traverse_example :
    (count 3 (keys (traverse left right)) ≡ max (count 3 left) (count 3 right))
    × (count 3 (seconds (traverse left right)) ≡ count 3 right - count 3 left)
count-traverse_example = count-traverse 3 left right (omega arith) (omega arith)

abbrev low : HashDigest
low = record { a = 1; b = 2 ^ 63; c = 3 }

abbrev high : HashDigest
high = record { a = 1; b = 2 ^ 63; c = 5 }

compare_hash_digests-number_example :
    compare_hash_digests low high ≡ compare (number low) (number high)
compare_hash_digests-number_example =
    compare_hash_digests-number low high (omega arith) (omega arith)

abbrev table : List ℕ
table = 1 ∷ 3 ∷ 4 ∷ []

table-IsSorted : IsSorted table
table-IsSorted zero zero h k = omega arith
table-IsSorted zero (suc zero) h k = omega arith
table-IsSorted zero (suc (suc zero)) h k = omega arith
table-IsSorted (suc zero) (suc zero) h k = omega arith
table-IsSorted (suc zero) (suc (suc zero)) h k = omega arith
table-IsSorted (suc (suc zero)) (suc (suc zero)) h k = omega arith
table-IsSorted (suc i) zero h k = absurd (omega arith)
table-IsSorted (suc (suc i)) (suc zero) h k = absurd (omega arith)
table-IsSorted (suc (suc (suc i))) (suc (suc zero)) h k = absurd (omega arith)
table-IsSorted i (suc (suc (suc j))) h k = absurd (omega arith)

-- The position at which std::lower_bound finds 3.
abbrev position : List ℕ → ℕ → ℕ
position t key = 1

below_position : (i : ℕ) → i < 1 → get_or table i 0 < 3
below_position zero h = omega arith
below_position (suc i) h = absurd (omega arith)

above_position : (i : ℕ) → 1 ≤ i → i < 3 → 3 ≤ get_or table i 0
above_position zero h k = absurd (omega arith)
above_position (suc zero) h k = omega arith
above_position (suc (suc zero)) h k = omega arith
above_position (suc (suc (suc i))) h k = absurd (omega arith)
