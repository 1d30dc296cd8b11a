-- ===== src/HashTable/Probe.antt =====
-- The slots that are probed for a hash, one behind the other round the table.
use native.Mathlib.Nat.{mod-eq_of_lt, mod_self, mod-lt}
use Prim.Native.Nat.{bit_and}
use tundra.Prelude.Bits.{bit_and_mask, pow2_pos}
use tundra.Prelude.{
  ℕ, zero, suc, ◌+◌, ◌-◌, ◌%◌, ◌^◌, ◌<◌, ◌≡◌, ◌≢◌, refl, sym, ap, ◌∙◌, List, some, inl, inr,
  if◌then◌else◌, ◌==◌, leb, get_or, Bool-cases, arith,
}
use tundra.HashTable.{first_index, next_slot, find_free}

-- The table has a power of two of slots.
pub record IsSize (size : ℕ) : Type 0 where
  pub shift : ℕ
  pub is_power : size ≡ 2 ^ shift

abbrev wrap : ℕ → ℕ → ℕ
wrap size i = if i + 1 == size then 0 else i + 1

size_pos : {size : ℕ} → IsSize size → 0 < size
size_pos v = omega (arith, v.is_power, pow2_pos v.shift)

pub first_index_lt : {size : ℕ} → IsSize size → (hash : ℕ) → first_index size hash < size
unfolding first_index
first_index_lt {size} v hash =
    let e = ap (λ n. bit_and hash (n - 1)) v.is_power ∙ bit_and_mask v.shift hash in
    let lt = mod-lt hash (pow2_pos v.shift) in omega (arith, v.is_power, e, lt)

next_slot-wrap : {size : ℕ} → IsSize size → (i : ℕ) → i < size → next_slot size i ≡ wrap size i
unfolding next_slot
next_slot-wrap {size} v i h =
    let e =
      ap (λ n. bit_and (i + 1) (n - 1)) v.is_power
      ∙ bit_and_mask v.shift (i + 1)
      ∙ ap (λ n. (i + 1) % n) (sym v.is_power) in
    e
    ∙ ground (
      arith,
      mod_self size,
      mod-eq_of_lt {n = i + 1} {m = size},
      ap (λ n. n % size) {x = i + 1} {y = size},
    )

pub next_slot_lt : {size : ℕ} → IsSize size → (i : ℕ) → i < size → next_slot size i < size
next_slot_lt v i h = ground (arith, next_slot-wrap v i h)

-- How far it is from one slot on to another.
abbrev pub distance : ℕ → ℕ → ℕ → ℕ
distance size a z = if leb a z then z - a else z + size - a

pub distance_lt : (size a z : ℕ) → a < size → z < size → distance size a z < size
distance_lt size a z ha hz = ground arith

pub distance-next_slot :
    {size : ℕ}
    → IsSize size
    → (a z : ℕ) → a < size
    → z < size
    → a ≢ z
    → distance size (next_slot size a) z < distance size a z
distance-next_slot v a z ha hz ne = ground (arith, next_slot-wrap v a ha)

-- From the first slot probing comes to the second past slots that are taken.
pub data Run (hashes : List ℕ) (size : ℕ) : ℕ → ℕ → Type 0 where
  here : (a : ℕ) → Run hashes size a a
  there :
      (a b : ℕ) → get_or hashes a 0 ≢ 0 → Run hashes size (next_slot size a) b → Run hashes size a b

-- A search for a free slot finds one, where the table has one, and has passed only taken slots.
pub find_free-some :
    {size : ℕ} (v : IsSize size) (hashes : List ℕ) (z : ℕ)
    → z < size
    → get_or hashes z 0 ≡ 0
    → (fuel a : ℕ) → a < size
    → distance size a z < fuel
    → (k : ℕ) × (find_free hashes size fuel a ≡ some k)
      × (k < size)
      × (get_or hashes k 0 ≡ 0)
      × Run hashes size a k
unfolding find_free
find_free-some v hashes z hz free zero a ha enough = absurd (omega arith)
find_free-some {size} v hashes z hz free (suc fuel) a ha enough =
    elim (Bool-cases (get_or hashes a 0 == 0)) [
      | inl e ↦ (a, rw e refl, ha, ground arith, Run.here a)
      | inr e ↦
          let taken : get_or hashes a 0 ≢ 0 = ground arith in
          let nearer =
            distance-next_slot v a z ha hz
              (λ same. taken (ap (λ i. get_or hashes i 0) same ∙ free)) in
          let (k, found, hk, empty, run) =
            find_free-some v hashes z hz free fuel (next_slot size a) (next_slot_lt v a ha)
              (omega arith) in
          (k, rw e found, hk, empty, Run.there a k taken run)
    ]
