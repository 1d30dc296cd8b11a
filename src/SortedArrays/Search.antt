-- ===== src/SortedArrays/Search.antt =====
-- The binary search finds what is there, given what std::lower_bound documents.
use tundra.SortedArrays.{binary_search}
use tundra.Prelude.{ℕ, ◌≤◌, ◌<◌, ◌≡◌, ◌≢◌, ◌↔◌, List, some, length, get_or, arith}

-- std::lower_bound on a sorted range: the first position whose element is not below the key.
pub record IsLowerBound (lower_bound : List ℕ → ℕ → ℕ) (table : List ℕ) (key : ℕ) : Type 0 where
  pub in_range : lower_bound table key ≤ length table
  pub below : (i : ℕ) → i < lower_bound table key → get_or table i 0 < key
  pub above : (i : ℕ) → lower_bound table key ≤ i → i < length table → key ≤ get_or table i 0

abbrev pub IsSorted : List ℕ → Type 0
IsSorted table = (i j : ℕ) → i ≤ j → j < length table → get_or table i 0 ≤ get_or table j 0

-- In a sorted table the search succeeds with an index exactly if the key stands there and at no index before.
pub binary_search-some :
    (lower_bound : List ℕ → ℕ → ℕ) (table : List ℕ) (key i : ℕ)
    → IsSorted table
    → IsLowerBound lower_bound table key
    → (binary_search lower_bound table key ≡ some i)
      ↔ ((i < length table) × (get_or table i 0 ≡ key) × ((j : ℕ) → j < i → get_or table j 0 ≢ key))
unfolding binary_search
binary_search-some lower_bound table key i sorted v = (
  λ h. (ground arith, ground arith, λ j lt e. ground (arith, v.below j)),
  λ w.
      let (lt, e, first) = w in
      let found : lower_bound table key ≡ i = ground (
        arith,
        v.below i,
        v.above (lower_bound table key),
        first (lower_bound table key),
        sorted (lower_bound table key) i,
      ) in
      ground arith,
)
