-- ===== src/Memory/Linear.antt =====
-- The linear allocator hands out aligned blocks that lie inside its memory, one behind the other.
use Prim.Native.Nat.{bit_and}
use native.Mathlib.Nat.{mod-lt, div-add-mod, mul-mod_right, mod_self}
use tundra.Prelude.Bits.{bit_and_mask, pow2_pos}
use tundra.Memory.{MemAllocLinear, align_up, linear_allocate}
use tundra.Prelude.{
  ℕ, ◌+◌, ◌-◌, ◌*◌, ◌/◌, ◌%◌, ◌^◌, ◌≤◌, ◌<◌, ◌≡◌, ◌⊎◌, ap, ◌∙◌, some, none, Bool-cases, inl, inr,
  leb, ltb, ◌==◌, true, if◌then◌else◌, refl, arith,
}

sub-mod_mod : (x m : ℕ) → 0 < m → (x - x % m) % m ≡ 0
sub-mod_mod x m h =
    ap (λ t. t % m) {y = m * (x / m)} (omega (arith, div-add-mod x m)) ∙ mul-mod_right m (x / m)

-- Rounding up to a power of two gives the first multiple of it that is not below the offset, where
-- the sum does not wrap.
pub align_up_bounds :
    (k x : ℕ)
    → x + 2 ^ k ≤ 2 ^ 64
    → (x ≤ align_up x (2 ^ k)) × (align_up x (2 ^ k) < x + 2 ^ k) × (align_up x (2 ^ k) % 2 ^ k ≡ 0)
unfolding align_up
align_up_bounds k x room =
    let m = 2 ^ k in
    let y = x + m - 1 in
    let pos = pow2_pos k in
    let sum : (x + m + (2 ^ 64 - 1)) % 2 ^ 64 ≡ y = omega (arith, pos, room) in
    let mask : (m + (2 ^ 64 - 1)) % 2 ^ 64 ≡ m - 1 = omega (arith, pos, room) in
    let e : bit_and y (m - 1) ≡ y % m = bit_and_mask k y in
    rw (sum, mask, e) (omega (arith, mod-lt y pos), omega arith, sub-mod_mod y m pos)

-- `align & (align - 1)` is 0 for a power of two.
pow2-mask : (k : ℕ) → bit_and (2 ^ k) (2 ^ k - 1) ≡ 0
pow2-mask k = bit_and_mask k (2 ^ k) ∙ mod_self (2 ^ k)

-- Behind the checks of LinearAllocate.
linear_allocate-end :
    (self : MemAllocLinear) (size k end : ℕ)
    → align_up self.offset (2 ^ k) % 2 ^ k ≡ 0
    → (align_up self.offset (2 ^ k) + size) % 2 ^ 64 ≡ end
    → linear_allocate self size (2 ^ k) ≡ (
        if leb end self.size
        then some (self.pointer + align_up self.offset (2 ^ k), record self { offset = end })
        else none)
unfolding linear_allocate
linear_allocate-end self size k end whole e =
    let off = align_up self.offset (2 ^ k) in
    let masked : bit_and off (2 ^ k - 1) ≡ 0 = bit_and_mask k off ∙ whole in
    let power : (bit_and (2 ^ k) (2 ^ k - 1) == 0) ≡ true = ground (arith, pow2-mask k) in
    let positive : ltb 0 (2 ^ k) ≡ true = ground (arith, pow2_pos k) in
    let fits : (bit_and off (2 ^ k - 1) == 0) ≡ true = ground (arith, masked) in
    rw (power, positive, fits, e) refl

-- In an allocator that has at most its size allocated, with an alignment that is a power of two and
-- that together with the size is at most 2^64, the offset is rounded up to the first multiple of
-- the alignment. A block of less than 2^64 bytes from there on that reaches past the end, but not
-- to 2^64, fails; one that ends within the memory is given, and the next begins behind it; for one
-- that reaches 2^64 the end wraps: only what is left above 2^64 is compared with the size, and
-- where that fits, a block is given that reaches past the memory, and the end of what is allocated
-- comes to lie before that block.
pub linear_allocate_lem :
    (self : MemAllocLinear) (size k : ℕ)
    → self.offset ≤ self.size
    → self.size + 2 ^ k ≤ 2 ^ 64
    → size < 2 ^ 64
    → let off = align_up self.offset (2 ^ k) in
      (self.offset ≤ off)
      × (off < self.offset + 2 ^ k)
      × (off % 2 ^ k ≡ 0)
      × (((self.size < off + size)
            × (off + size < 2 ^ 64)
            × (linear_allocate self size (2 ^ k) ≡ none))
          ⊎ ((off + size ≤ self.size)
              × (linear_allocate self size (2 ^ k)
                  ≡ some (self.pointer + off, record self { offset = off + size })))
          ⊎ ((2 ^ 64 ≤ off + size)
              × (linear_allocate self size (2 ^ k) ≡ (
                  if leb (off + size - 2 ^ 64) self.size
                  then some (self.pointer + off, record self { offset = off + size - 2 ^ 64 })
                  else none))))
linear_allocate_lem self size k held room low =
    let off = align_up self.offset (2 ^ k) in
    let b = align_up_bounds k self.offset (omega arith) in
    (
      b.0,
      b.1,
      b.2,
      elim (Bool-cases (leb (2 ^ 64) (off + size))) [
        | inl wraps ↦ inr (
            inr (
              ground arith,
              linear_allocate-end self size k (off + size - 2 ^ 64) b.2 (ground (arith, b.1)),
            ))
        | inr plain ↦
            let e : (off + size) % 2 ^ 64 ≡ off + size = ground arith in
            elim (Bool-cases (leb (off + size) self.size)) [
              | inl fits ↦ inr (
                  inl (
                    ground arith,
                    linear_allocate-end self size k (off + size) b.2 e ∙ rw fits refl,
                  ))
              | inr full ↦ inl (
                ground arith,
                ground arith,
                linear_allocate-end self size k (off + size) b.2 e ∙ rw full refl,
              )
            ]
      ],
    )
