-- ===== src/Prelude/Bits.antt =====
-- The bit masks of the source: `x & (2^k - 1)` is the remainder, for every k.
use Prim.Native.Nat.{bit_and, digits, bit_and-bitwise}
use native.Mathlib.Nat.{
  add-zero, add-suc, pow-suc, div-add-mod, mul-add-mod_self_left, mod-eq_of_lt, mod-lt, mod-one,
  mul-le-mul_left, zero-mod,
}
use tundra.Prelude.{
  ℕ, zero, suc, ◌+◌, ◌-◌, ◌*◌, ◌/◌, ◌%◌, ◌^◌, ◌≤◌, ◌<◌, min, ◌≡◌, sym, ap, ap₂, ◌∙◌, arith,
}

pub pow2_pos : (k : ℕ) → 0 < 2 ^ k
pow2_pos zero = omega arith
pow2_pos (suc k) = omega (arith, pow2_pos k, pow-suc 2 k)

halve-mod : (x m : ℕ) → 0 < m → x % (m * 2) ≡ (x / 2) % m * 2 + x % 2
halve-mod x m h =
    let y : ℕ = x / 2 in
    let e : x ≡ m * 2 * (y / m) + (y % m * 2 + x % 2) = omega (arith, div-add-mod y m) in
    ap (λ t. t % (m * 2)) e
    ∙ mul-add-mod_self_left (m * 2) (y / m) (y % m * 2 + x % 2)
    ∙ mod-eq_of_lt (omega (arith, mod-lt y h))

-- The digits that the native `bit_and` stands for, against a mask of k ones.
digits-mask : (n k x : ℕ) → x ≤ n → digits (λ b. zero) min n x (2 ^ k - 1) ≡ x % 2 ^ k
digits-mask zero k zero h = sym (zero-mod (2 ^ k))
digits-mask (suc n) k zero h = sym (zero-mod (2 ^ k))
digits-mask zero k (suc x) h = absurd (omega arith)
digits-mask (suc n) zero (suc x) h =
    omega (arith, digits-mask n zero (suc x / 2) (omega arith), mod-one (suc x / 2))
digits-mask (suc n) (suc k) (suc x) h =
    let half : (2 ^ suc k - 1) / 2 ≡ 2 ^ k - 1 = omega (arith, pow-suc 2 k, pow2_pos k) in
    let odd : (2 ^ suc k - 1) % 2 ≡ 1 = omega (arith, pow-suc 2 k, pow2_pos k) in
    let ih = digits-mask n k (suc x / 2) (omega arith) in
    ap₂ (λ s t. digits (λ b. zero) min n (suc x / 2) s * 2 + min (suc x % 2) t) half odd
    ∙ ap (λ s. s * 2 + min (suc x % 2) 1) ih
    ∙ rw (pow-suc, halve-mod (suc x) (2 ^ k) (pow2_pos k)) (omega arith)

pub bit_and_mask : (k x : ℕ) → bit_and x (2 ^ k - 1) ≡ x % 2 ^ k
bit_and_mask k x = bit_and-bitwise x (2 ^ k - 1) ∙ digits-mask x k x (omega arith)

pub pow2-add : (k j : ℕ) → 2 ^ (k + j) ≡ 2 ^ k * 2 ^ j
pow2-add k zero = rw add-zero (omega arith)
pow2-add k (suc j) =
    ap (λ t. 2 ^ t) (add-suc k j)
    ∙ pow-suc 2 (k + j)
    ∙ omega (arith, pow2-add k j, ap (λ t. 2 ^ k * t) (pow-suc 2 j))

pub pow2_le : {i j : ℕ} → i ≤ j → 2 ^ i ≤ 2 ^ j
pow2_le {i} {j} h =
    let e : j ≡ i + (j - i) = omega arith in
    let split = ap (λ t. 2 ^ t) e ∙ pow2-add i (j - i) in
    omega (arith, split, mul-le-mul_left (2 ^ i) (pow2_pos (j - i)))
