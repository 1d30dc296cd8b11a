-- ===== src/Prelude/Bytes.antt =====
-- Integers as bytes, the low one first, and writes of several bytes into an array.
use native.Mathlib.Nat.{pow-suc}
use tundra.Prelude.{
  ℕ, zero, suc, ◌+◌, ◌*◌, ◌/◌, ◌%◌, ◌^◌, ◌≤◌, ◌<◌, ◌≡◌, ◌⊎◌, inl, ap, ap₂, ◌∙◌, refl, List, [], ◌∷◌,
  length, get_or, set, length-set, get_or-set_self, get_or-set_ne, arith,
}

-- The `n` bytes of an integer as the machine stores it.
abbrev pub to_bytes : ℕ → ℕ → List ℕ
to_bytes zero v = []
to_bytes (suc n) v = v % 256 ∷ to_bytes n (v / 256)

-- The integer in the `n` bytes from a position on.
abbrev pub read_bytes : ℕ → List ℕ → ℕ → ℕ
read_bytes zero bytes i = 0
read_bytes (suc n) bytes i = get_or bytes i 0 + 256 * read_bytes n bytes (suc i)

-- memcpy of `xs` to a position
abbrev pub overwrite : List ℕ → ℕ → List ℕ → List ℕ
overwrite bytes i [] = bytes
overwrite bytes i (x ∷ xs) = overwrite (set bytes i x) (suc i) xs

pub length-to_bytes : (n v : ℕ) → length (to_bytes n v) ≡ n
length-to_bytes zero v = refl
length-to_bytes (suc n) v = ap suc (length-to_bytes n (v / 256))

pub length-overwrite :
    (bytes : List ℕ) (i : ℕ) (xs : List ℕ) → length (overwrite bytes i xs) ≡ length bytes
length-overwrite bytes i [] = refl
length-overwrite bytes i (x ∷ xs) =
    length-overwrite (set bytes i x) (suc i) xs ∙ length-set bytes i x

pub get_or-overwrite_ne :
    (bytes : List ℕ) (i : ℕ) (xs : List ℕ) (p d : ℕ)
    → (p < i) ⊎ (i + length xs ≤ p)
    → get_or (overwrite bytes i xs) p d ≡ get_or bytes p d
get_or-overwrite_ne bytes i [] p d h = refl
get_or-overwrite_ne bytes i (x ∷ xs) p d h =
    get_or-overwrite_ne (set bytes i x) (suc i) xs p d (ground arith)
    ∙ get_or-set_ne bytes x d (ground arith)

-- Integers that are read at other bytes are the same.
pub read_bytes-ext :
    (n : ℕ) (xs ys : List ℕ) (i j : ℕ)
    → ((p : ℕ) → p < n → get_or xs (i + p) 0 ≡ get_or ys (j + p) 0)
    → read_bytes n xs i ≡ read_bytes n ys j
read_bytes-ext zero xs ys i j h = refl
read_bytes-ext (suc n) xs ys i j h =
    let first : get_or xs i 0 ≡ get_or ys j 0 =
      ap (λ t. get_or xs t 0) {y = i + 0} (omega arith)
      ∙ h 0 (omega arith)
      ∙ ap (λ t. get_or ys t 0) {x = j + 0} (omega arith) in
    let others = read_bytes-ext n xs ys (suc i) (suc j) (λ p lt.
      ap (λ t. get_or xs t 0) {x = suc i + p} {y = i + suc p} (omega arith)
      ∙ h (suc p) (omega arith)
      ∙ ap (λ t. get_or ys t 0) {x = j + suc p} {y = suc j + p} (omega arith)) in
    ap₂ (λ s t. s + 256 * t) first others

pub read_bytes-overwrite_ne :
    (n : ℕ) (bytes : List ℕ) (i : ℕ) (xs : List ℕ) (p : ℕ)
    → (p + n ≤ i) ⊎ (i + length xs ≤ p)
    → read_bytes n (overwrite bytes i xs) p ≡ read_bytes n bytes p
read_bytes-overwrite_ne n bytes i xs p h =
    read_bytes-ext n (overwrite bytes i xs) bytes p p
      (λ q lt. get_or-overwrite_ne bytes i xs (p + q) 0 (ground arith))

-- The four bytes of an integer, read back, are the integer.
pub read_bytes-overwrite :
    (n v : ℕ) (bytes : List ℕ) (i : ℕ)
    → i + n ≤ length bytes
    → v < 256 ^ n
    → read_bytes n (overwrite bytes i (to_bytes n v)) i ≡ v
read_bytes-overwrite zero v bytes i h lt = omega arith
read_bytes-overwrite (suc n) v bytes i h lt =
    let b = v % 256 in
    let grown = pow-suc 256 n in
    let low =
      get_or-overwrite_ne (set bytes i b) (suc i) (to_bytes n (v / 256)) i 0 (inl (omega arith))
      ∙ get_or-set_self bytes i b 0 (omega arith) in
    let high =
      read_bytes-overwrite n (v / 256) (set bytes i b) (suc i) (omega (arith, length-set bytes i b))
        (omega (arith, grown)) in
    ap₂ (λ s t. s + 256 * t) low high ∙ omega arith
