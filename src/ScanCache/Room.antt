-- ===== src/ScanCache/Room.antt =====
-- The room that ScanCachePrepareInsert makes.
use tundra.SortedArrays.{HashDigest}
use tundra.ScanCache.{
  ScanCache, chain_index, find_record, lookup_dynamic, rehash_chains, grow_table,
  scan_cache_prepare_insert, chain_load,
}
use tundra.Words.{next_power_of_two}
use tundra.ScanCache.Chains.{Among, record_at, IsSize, chain_index_lt, IsChained}
use tundra.ScanCache.Rehash.{
  no_record_found, length-rehash_chains, get_or-replicate, rehash_chains-record_at,
}
use tundra.Prelude.Bits.{pow2_pos, pow2_le}
use native.Mathlib.Nat.{pow-suc, div-add-mod, mul-le-mul_left}
use tundra.Prelude.{
  ◌*◌, ◌/◌, lt→ltb, ℕ, zero, suc, ◌+◌, ◌%◌, ◌^◌, ◌≤◌, ◌<◌, max, ◌≡◌, ◌⊎◌, inl, inr, refl, sym, ap,
  subst, ◌∙◌, ◌&&◌, Bool, true, false, [], Option, none, some, ltb, ◌==◌, length, replicate,
  length-replicate, Bool-cases, ==_iff, arith,
}

-- The next power of two behind one, by evaluation at each.
abbrev doubles : ℕ → Bool
doubles k = elim (next_power_of_two (2 ^ k + 1)) [ none ↦ false | some pow2 ↦ pow2 == 2 ^ (k + 1) ]

abbrev all_below : ℕ → (ℕ → Bool) → Bool
all_below zero test = true
all_below (suc n) test = test n && all_below n test

all_below_sound :
    (n : ℕ) (test : ℕ → Bool) (k : ℕ) → all_below n test ≡ true → k < n → test k ≡ true
all_below_sound zero test k h lt = absurd (omega arith)
all_below_sound (suc n) test k h lt = ground (arith, all_below_sound n test k)

doubles_all : all_below 31 doubles ≡ true
unfolding next_power_of_two
doubles_all = refl

pub next_power_of_two-double : (k : ℕ) → k ≤ 30 → next_power_of_two (2 ^ k + 1) ≡ some (2 ^ (k + 1))
next_power_of_two-double k le =
    read (next_power_of_two (2 ^ k + 1)) (all_below_sound 31 doubles k doubles_all (omega arith))
  where
    read :
        (o : Option ℕ)
        → elim o [ none ↦ false | some pow2 ↦ pow2 == 2 ^ (k + 1) ] ≡ true
        → o ≡ some (2 ^ (k + 1))
    read none h = absurd (ground (arith, h))
    read (some pow2) h = ap some ((==_iff pow2 (2 ^ (k + 1))).0 h)

-- A table of 2^6 to 2^31 chains.
pub record IsFull (self : ScanCache) : Type 0 where
  pub shift : ℕ
  pub low : 6 ≤ shift
  pub high : shift ≤ 31
  pub is_power : self.table_size ≡ 2 ^ shift
  pub chains : length self.table ≡ self.table_size
  pub chained : IsChained self.table_size self.table

-- The empty table, or a full one.
abbrev pub IsScanCache : ScanCache → Type 0
IsScanCache self = ((self.table_size ≡ 0) × (self.table ≡ [])) ⊎ IsFull self

pub IsFull-IsSize : {self : ScanCache} → IsFull self → IsSize self.table_size
IsFull-IsSize v = record { shift = v.shift; is_power = v.is_power }

-- The table has not grown without need.
abbrev pub IsLight : ScanCache → Type 0
IsLight self = self.table_size ≤ 64 + 4 * self.record_count

abbrev pub Grown : ScanCache → ScanCache → Type 0
Grown self self' =
    IsFull self'
    × ((key : HashDigest) → lookup_dynamic self' key ≡ lookup_dynamic self key)
    × (self'.frozen_data ≡ self.frozen_data)
    × (self'.record_count ≡ self.record_count)
    × (IsLight self → self.record_count < 2 ^ 24 → IsLight self')

pub lookup-record_at :
    (self : ScanCache) (key : HashDigest)
    → 0 < self.table_size
    → lookup_dynamic self key ≡ record_at self.table_size self.table key
unfolding lookup_dynamic
lookup-record_at self key pos = ground arith

pub IsFull-pos : {self : ScanCache} → IsFull self → 0 < self.table_size
IsFull-pos v = omega (arith, v.is_power, pow2_pos v.shift)

grow-empty :
    (self : ScanCache) (pow2 : ℕ)
    → pow2 ≡ 1
    → self.table_size ≡ 0
    → self.table ≡ []
    → Grown self (grow_table self pow2)
unfolding grow_table rehash_chains lookup_dynamic
grow-empty self pow2 one size nothing =
    rw (one, nothing)
      (
        record {
          shift = 6;
          low = omega arith;
          high = omega arith;
          is_power = refl;
          chains = refl;
          chained = λ i r lt h. absurd (subst (Among r) (get_or-replicate 64 i) h);
        },
        λ key.
            ap (find_record key) (get_or-replicate 64 (chain_index 64 key))
            ∙ no_record_found key
            ∙ rw size refl,
        refl,
        refl,
        λ light few. omega arith,
      )

shifted : (k : ℕ) → 2 ^ (k + 1) ≡ 2 ^ k * 2
shifted k = ap (λ n. 2 ^ n) {x = k + 1} {y = suc k} (omega arith) ∙ omega (arith, pow-suc 2 k)

-- A table that is to grow is full.
heavy_size :
    (self : ScanCache)
    → IsFull self
    → ltb (chain_load self) 0xc0 ≡ false
    → self.record_count < 2 ^ 24
    → self.table_size ≤ 2 * self.record_count
unfolding chain_load
heavy_size self v heavy few =
    let pos = IsFull-pos v in
    let whole : 0x100 * self.record_count % 2 ^ 32 ≡ 0x100 * self.record_count = omega arith in
    let low : 0xc0 ≤ 0x100 * self.record_count / self.table_size =
      subst (λ n. 0xc0 ≤ n / self.table_size) whole (ground (arith, heavy)) in
    let back = div-add-mod (0x100 * self.record_count) self.table_size in
    let more = mul-le-mul_left self.table_size low in omega (arith, back, more)

grow-full :
    (self : ScanCache) (pow2 : ℕ) (v : IsFull self)
    → v.shift ≤ 30
    → pow2 ≡ 2 ^ (v.shift + 1)
    → ltb (chain_load self) 0xc0 ≡ false
    → Grown self (grow_table self pow2)
unfolding grow_table
grow-full self pow2 v le e heavy =
    let new_size = max pow2 64 in
    let big = pow2_le {i = 6} {j = v.shift + 1} (omega (arith, v.low)) in
    let is_power : new_size ≡ 2 ^ (v.shift + 1) = omega (arith, big) in
    let p : IsSize new_size = record { shift = v.shift + 1; is_power = is_power } in
    let (chained, kept) =
      rehash_chains-record_at self.table_size new_size self.table p v.chains v.chained in
    let table' = rehash_chains new_size self.table (replicate new_size []) in
    let self' : ScanCache = grow_table self pow2 in
    let full : IsFull self' = record {
      shift = v.shift + 1;
      low = omega (arith, v.low);
      high = omega arith;
      is_power = is_power;
      chains =
          length-rehash_chains new_size p self.table (replicate new_size [])
          ∙ length-replicate new_size [];
      chained = chained;
    } in
    (
      full,
      λ key.
          lookup-record_at self' key (IsFull-pos full)
          ∙ kept key (chain_index_lt (IsFull-IsSize v) key)
          ∙ sym (lookup-record_at self key (IsFull-pos v)),
      refl,
      refl,
      λ light few.
          let bound = heavy_size self v heavy few in
          omega (arith, is_power, bound, v.is_power, pow-suc 2 v.shift, shifted v.shift),
    )

Grown-refl : (self : ScanCache) → IsFull self → Grown self self
Grown-refl self v = (v, λ key. refl, refl, refl, λ light few. light)

-- Making room: from an empty table, or one of at most 2^30 chains, the preparation succeeds and
-- leaves a table that is not empty, in which each key has the record that it had.
pub prepare_insert-Grown :
    (self : ScanCache)
    → IsScanCache self
    → self.table_size ≤ 2 ^ 30
    → (self' : ScanCache) × (scan_cache_prepare_insert self ≡ some self') × Grown self self'
unfolding scan_cache_prepare_insert
prepare_insert-Grown self (inl (size, nothing)) small =
    (grow_table self 1, rw size refl, grow-empty self 1 refl size nothing)
prepare_insert-Grown self (inr v) small =
    let le : v.shift ≤ 30 = below_31 v in
    let double : next_power_of_two (self.table_size + 1) ≡ some (2 ^ (v.shift + 1)) =
      ap (λ n. next_power_of_two (n + 1)) v.is_power ∙ next_power_of_two-double v.shift le in
    let some_chains : ltb 0 self.table_size ≡ true = lt→ltb 0 self.table_size (IsFull-pos v) in
    elim (Bool-cases (ltb (chain_load self) 0xc0)) [
      | inl light ↦ (self, rw (some_chains, light) refl, Grown-refl self v)
      | inr heavy ↦ (
        grow_table self (2 ^ (v.shift + 1)),
        rw (some_chains, heavy, double) refl,
        grow-full self (2 ^ (v.shift + 1)) v le refl heavy,
      )
    ]
  where
    below_31 : (v : IsFull self) → v.shift ≤ 30
    below_31 v = elim (Bool-cases (ltb 30 v.shift)) [
      | inl b ↦
          let more = pow2_le {i = 31} {j = v.shift} (ground (arith, b)) in
          absurd (omega (arith, more, v.is_power, small))
      | inr b ↦ ground (arith, b)
    ]
