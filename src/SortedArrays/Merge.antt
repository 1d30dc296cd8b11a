-- ===== src/SortedArrays/Merge.antt =====
-- What the merge of two sorted arrays visits.
use Prim.Native.Nat.{max}
use tundra.SortedArrays.{Visit, traverse}
use tundra.Prelude.{ℕ, ◌+◌, ◌-◌, ◌≤◌, ◌<◌, ◌≡◌, refl, List, [], ◌∷◌, if◌then◌else◌, ◌==◌, arith}

-- Every key is above `n`, and they increase.
abbrev pub Above : ℕ → List ℕ → Type 0
Above n [] = Unit
Above n (x ∷ xs) = (n < x) × Above x xs

-- The array is sorted and has no key twice.
abbrev pub IsIncreasing : List ℕ → Type 0
IsIncreasing [] = Unit
IsIncreasing (x ∷ xs) = Above x xs

unfoldable pub count : ℕ → List ℕ → ℕ
count k [] = 0
count k (x ∷ xs) = (if x == k then 1 else 0) + count k xs

-- The keys of the visits, and those of the second callback's.
unfoldable pub keys : List Visit → List ℕ
keys [] = []
keys (Visit.first x ∷ vs) = x ∷ keys vs
keys (Visit.second x ∷ vs) = x ∷ keys vs

unfoldable pub seconds : List Visit → List ℕ
seconds [] = []
seconds (Visit.first x ∷ vs) = seconds vs
seconds (Visit.second x ∷ vs) = x ∷ seconds vs

count-Above : (k n : ℕ) (xs : List ℕ) → Above n xs → k ≤ n → count k xs ≡ 0
unfolding count
count-Above k n [] h e = refl
count-Above k n (x ∷ xs) h e = ground (arith, count-Above k x xs h.1)

Above-mono : {m n : ℕ} (xs : List ℕ) → m ≤ n → Above n xs → Above m xs
Above-mono [] h a = tt
Above-mono (x ∷ xs) h a = (omega arith, a.1)

traverse-Above :
    (n : ℕ) (xs ys : List ℕ) → Above n xs → Above n ys → Above n (keys (traverse xs ys))
unfolding traverse keys
traverse-Above n [] [] hx hy = tt
traverse-Above n [] (y ∷ ys) hx hy = (hy.0, traverse-Above y [] ys tt hy.1)
traverse-Above n (x ∷ xs) [] hx hy = (hx.0, traverse-Above x xs [] hx.1 tt)
traverse-Above n (x ∷ xs) (y ∷ ys) hx hy = ground (
  arith,
  traverse-Above x xs (y ∷ ys) hx.1,
  traverse-Above x xs ys hx.1,
  traverse-Above y (x ∷ xs) ys,
  Above-mono {m = x} {n = y} ys,
)

IsIncreasing-tail : (x : ℕ) (xs : List ℕ) → Above x xs → IsIncreasing xs
IsIncreasing-tail x [] h = tt
IsIncreasing-tail x (y ∷ ys) h = h.1

-- For two sorted arrays with no key twice in either, the keys are visited in increasing order.
pub traverse-IsIncreasing :
    (xs ys : List ℕ) → IsIncreasing xs → IsIncreasing ys → IsIncreasing (keys (traverse xs ys))
unfolding traverse keys
traverse-IsIncreasing [] [] hx hy = tt
traverse-IsIncreasing [] (y ∷ ys) hx hy = traverse-Above y [] ys tt hy
traverse-IsIncreasing (x ∷ xs) [] hx hy = traverse-Above x xs [] hx tt
traverse-IsIncreasing (x ∷ xs) (y ∷ ys) hx hy = ground (
  arith,
  traverse-Above x xs (y ∷ ys) hx,
  traverse-Above x xs ys hx,
  traverse-Above y (x ∷ xs) ys,
  Above-mono {m = x} {n = y} ys,
)

-- For two sorted arrays with no key twice in either, each key of either array is visited once and
-- no other key is; the second callback gets exactly the keys that the first array lacks.
pub count-traverse :
    (k : ℕ) (xs ys : List ℕ)
    → IsIncreasing xs
    → IsIncreasing ys
    → (count k (keys (traverse xs ys)) ≡ max (count k xs) (count k ys))
      × (count k (seconds (traverse xs ys)) ≡ count k ys - count k xs)
unfolding traverse keys seconds count
count-traverse k [] [] hx hy = omega arith
count-traverse k [] (y ∷ ys) hx hy =
    omega (arith, count-traverse k [] ys tt (IsIncreasing-tail y ys hy))
count-traverse k (x ∷ xs) [] hx hy =
    omega (arith, count-traverse k xs [] (IsIncreasing-tail x xs hx) tt)
count-traverse k (x ∷ xs) (y ∷ ys) hx hy =
    let sx = IsIncreasing-tail x xs hx in
    let sy = IsIncreasing-tail y ys hy in
    ground (
      arith,
      count-traverse k xs (y ∷ ys) sx hy,
      count-traverse k xs ys sx sy,
      count-traverse k (x ∷ xs) ys hx sy,
      count-Above k x xs hx,
      count-Above k y ys hy,
    )
