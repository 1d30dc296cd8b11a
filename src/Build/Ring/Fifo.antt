-- ===== src/Build/Ring/Fifo.antt =====
-- The ring buffer is a first-in first-out list of at most `capacity - 1` indices.
use tundra.Prelude.{
  ℕ, zero, suc, ◌+◌, ◌-◌, ◌≤◌, ◌<◌, ◌≡◌, refl, sym, ap, ap₂, ◌∙◌, ◌≢◌, List, [], ◌∷◌, ◌++◌, length,
  get_or, set, get_or-set_self, get_or-set_ne, length-set, if◌then◌else◌, ltb, arith,
}
use tundra.Build.Ring.{
  Ring, IsRing, available_node_count, wrap_next, distance, slots, contents, put, fetch,
}
use tundra.Build.Ring.Index.{available-distance, next_index-wrap}

length-slots : (q : List ℕ) (cap i n : ℕ) → length (slots q cap i n) ≡ n
length-slots q cap i zero = refl
length-slots q cap i (suc n) = ap suc (length-slots q cap (wrap_next cap i) n)

-- In a valid ring, the count that AvailableNodeCount computes is the number of indices stored.
pub available-length : {r : Ring} → IsRing r → available_node_count r ≡ length (contents r)
available-length {r} v = available-distance v ∙ sym (length-slots r.queue r.capacity r.read_index _)

slots-set :
    (q : List ℕ) (cap x n i w : ℕ)
    → cap ≤ length q
    → i < cap
    → n < cap
    → w ≡ (if ltb (i + n) cap then i + n else i + n - cap)
    → slots (set q w x) cap i (suc n) ≡ slots q cap i n ++ (x ∷ [])
slots-set q cap x zero i w hq hi hn e =
    let e' : w ≡ i = ground arith in rw (e', get_or-set_self q i x 0 (omega arith))
slots-set q cap x (suc n) i w hq hi hn e =
    let ne : w ≢ i = ground arith in
    ap₂ ◌∷◌ (get_or-set_ne q x 0 ne)
      (slots-set q cap x n (wrap_next cap i) w hq (ground arith) (omega arith) (ground arith))

pub put-IsRing : {r : Ring} (x : ℕ) → IsRing r → IsRing (put r x)
unfolding put
put-IsRing {r} x v = record {
  shift = v.shift;
  shift_le = v.shift_le;
  is_power = v.is_power;
  allocated = length-set r.queue r.write_index x ∙ v.allocated;
  read_in = v.read_in;
  write_in = rw (next_index-wrap v r.write_index v.write_in) (ground arith);
}

-- In a valid ring that holds fewer than `capacity - 1` indices, storing an index appends it to the
-- contents.
pub contents-put :
    {r : Ring} (x : ℕ)
    → IsRing r
    → length (contents r) + 1 < r.capacity
    → contents (put r x) ≡ contents r ++ (x ∷ [])
unfolding put
contents-put {r} x v h =
    let cap = r.capacity in
    let n = distance cap r.read_index r.write_index in
    let room : n + 1 < cap = omega (arith, length-slots r.queue cap r.read_index n) in
    let longer : distance cap r.read_index (wrap_next cap r.write_index) ≡ suc n = ground arith in
    rw (next_index-wrap v r.write_index v.write_in, longer)
      (slots-set r.queue cap x n r.read_index r.write_index (omega arith) v.read_in (omega arith)
        (ground arith))

pub fetch-IsRing : {r : Ring} → IsRing r → IsRing (fetch r).1
unfolding fetch
fetch-IsRing {r} v = record {
  shift = v.shift;
  shift_le = v.shift_le;
  is_power = v.is_power;
  allocated = v.allocated;
  read_in = rw (next_index-wrap v r.read_index v.read_in) (ground arith);
  write_in = v.write_in;
}

slots-cons :
    (q : List ℕ) (cap i n : ℕ)
    → n ≢ 0
    → slots q cap i n ≡ get_or q i 0 ∷ slots q cap (wrap_next cap i) (n - 1)
slots-cons q cap i zero h = absurd (h refl)
slots-cons q cap i (suc n) h = ap (λ k. slots q cap i (suc k)) (omega arith)

-- In a valid ring, an index that is available is the first of the contents, and fetching it leaves
-- the rest.
pub contents-fetch :
    {r : Ring}
    → IsRing r
    → available_node_count r ≢ 0
    → contents r ≡ (fetch r).0 ∷ contents (fetch r).1
unfolding fetch
contents-fetch {r} v h =
    let cap = r.capacity in
    let n = distance cap r.read_index r.write_index in
    let some_left : n ≢ 0 = rw (available-distance v) at h in
    let shorter : distance cap (wrap_next cap r.read_index) r.write_index ≡ n - 1 = ground arith in
    rw (next_index-wrap v r.read_index v.read_in, shorter)
      (slots-cons r.queue cap r.read_index n some_left)
