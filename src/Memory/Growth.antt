-- ===== src/Memory/Growth.antt =====
-- A buffer never holds more elements than it has room for, and grows by half its new size at least.
use tundra.Memory.{
  Buffer, buffer_append, grown_capacity, buffer_append_one, buffer_pop_one, last_of,
}
use tundra.Prelude.{
  ℕ, ◌+◌, ◌*◌, ◌≤◌, ◌<◌, ◌≡◌, refl, ap, List, [], ◌∷◌, ◌++◌, some, length, take, length-append,
  arith,
}

abbrev pub IsBuffer {ℓ} : {A : Type ℓ} → Buffer A → Type 0
IsBuffer b = length b.elements ≤ b.capacity

module _ {ℓ} {A : Type ℓ} where
  -- From a buffer whose elements fit, appending keeps the elements within the capacity, never lowers the capacity, and where it has
  -- to grow at least doubles it.
  pub buffer_append-IsBuffer :
      (b : Buffer A) (elems : List A)
      → IsBuffer b
      → IsBuffer (buffer_append b elems)
        × (b.capacity ≤ (buffer_append b elems).capacity)
        × (b.capacity < length b.elements + length elems
            → 2 * b.capacity ≤ (buffer_append b elems).capacity)
  unfolding buffer_append grown_capacity
  buffer_append-IsBuffer b elems h =
      (ground (arith, length-append b.elements elems), ground arith, λ g. ground arith)

  last_of-append : (d a : A) (xs : List A) → last_of d (xs ++ a ∷ []) ≡ a
  unfolding last_of
  last_of-append d a [] = refl
  last_of-append d a (x ∷ xs) = last_of-append x a xs

  take-all : (x a : A) (xs : List A) → take (length (xs ++ a ∷ [])) (x ∷ (xs ++ a ∷ [])) ≡ x ∷ xs
  take-all x a [] = refl
  take-all x a (y ∷ xs) = ap (λ l. x ∷ l) (take-all y a xs)

  pop-append :
      (es : List A) (a : A) (cap : ℕ)
      → buffer_pop_one (record { elements = es ++ a ∷ []; capacity = cap })
        ≡ some (a, record { elements = es; capacity = cap })
  unfolding buffer_pop_one
  pop-append [] a cap = refl
  pop-append (x ∷ xs) a cap = ground (arith, last_of-append x a xs, take-all x a xs)

  -- What was appended last is popped first, and the other elements are left.
  pub buffer_pop_one-append_one :
      (b : Buffer A) (a : A)
      → buffer_pop_one (buffer_append_one b a)
        ≡ some (a, record { elements = b.elements; capacity = (buffer_append_one b a).capacity })
  unfolding buffer_append_one
  buffer_pop_one-append_one b a = pop-append b.elements a _
