-- ===== src/HashTable/Occupied.antt =====
-- How many slots of a table are taken.
use tundra.Prelude.{
  ℕ, zero, suc, ◌≤◌, ◌<◌, ◌≡◌, ◌≢◌, refl, inl, inr, List, [], ◌∷◌, if◌then◌else◌, ◌==◌, length,
  get_or, set, replicate, take, length-take, Bool-cases, arith,
}

-- How many slots are taken.
abbrev pub occupied : List ℕ → ℕ
occupied [] = 0
occupied (h ∷ hashes) = if h == 0 then occupied hashes else suc (occupied hashes)

pub free_slot :
    (hashes : List ℕ)
    → occupied hashes < length hashes
    → (z : ℕ) × (z < length hashes) × (get_or hashes z 0 ≡ 0)
free_slot [] h = absurd (omega arith)
free_slot (x ∷ hashes) h = elim (Bool-cases (x == 0)) [
  | inl e ↦ (0, omega arith, ground arith)
  | inr e ↦ let (z, lt, free) = free_slot hashes (ground arith) in (suc z, omega arith, free)
]

pub occupied-set :
    (hashes : List ℕ) (k v : ℕ)
    → k < length hashes
    → get_or hashes k 0 ≡ 0
    → v ≢ 0
    → occupied (set hashes k v) ≡ suc (occupied hashes)
occupied-set [] k v lt free taken = absurd (omega arith)
occupied-set (x ∷ hashes) zero v lt free taken = ground arith
occupied-set (x ∷ hashes) (suc k) v lt free taken =
    ground (arith, occupied-set hashes k v (omega arith) free taken)

pub occupied-replicate : (n : ℕ) → occupied (replicate n 0) ≡ 0
occupied-replicate zero = refl
occupied-replicate (suc n) = occupied-replicate n

occupied_le : (hashes : List ℕ) → occupied hashes ≤ length hashes
occupied_le [] = omega arith
occupied_le (h ∷ hashes) = ground (arith, occupied_le hashes)

pub occupied-take :
    (hashes : List ℕ) (i : ℕ)
    → i < length hashes
    → occupied (take (suc i) hashes) ≡ (
        if get_or hashes i 0 == 0 then occupied (take i hashes) else suc (occupied (take i hashes)))
occupied-take [] i h = absurd (omega arith)
occupied-take (x ∷ hashes) zero h = refl
occupied-take (x ∷ hashes) (suc i) h = ground (arith, occupied-take hashes i (omega arith))

pub occupied-take_all : (hashes : List ℕ) → occupied (take (length hashes) hashes) ≡ occupied hashes
occupied-take_all [] = refl
occupied-take_all (x ∷ hashes) = ground (arith, occupied-take_all hashes)

pub occupied-take_le : (hashes : List ℕ) (i : ℕ) → occupied (take i hashes) ≤ i
occupied-take_le hashes i = omega (arith, occupied_le (take i hashes), length-take i hashes)
