-- ===== src/Build/Ring/Index.antt =====
-- The masked `uint32_t` arithmetic of the ring is arithmetic round the capacity.
use native.Mathlib.Nat.{
  mod-mod_of_dvd, add-mul-mod_self_left, mod-eq_of_lt, mod_self, add-mod_right, dvd-mul_right,
}
use Prim.Native.Nat.{bit_and, ◌∣◌}
use tundra.Prelude.Bits.{bit_and_mask, pow2_pos, pow2-add}
use tundra.Prelude.{ℕ, ◌+◌, ◌-◌, ◌*◌, ◌%◌, ◌^◌, ◌≤◌, ◌<◌, ◌≡◌, sym, ap, subst, ◌∙◌, arith}
use tundra.Build.Ring.{Ring, IsRing, available_node_count, next_index, wrap_next, distance}

mod-round : (m w r : ℕ) → r < m → w < m → (w + m - r) % m ≡ distance m r w
mod-round m w r hr hw = ground (
  arith,
  ap (λ t. t % m) {x = w + m - r} {y = (w - r) + m},
  add-mod_right (w - r) m,
  mod-eq_of_lt {n = w - r} {m = m},
  mod-eq_of_lt {n = w + m - r} {m = m},
)

-- 2^32 is a multiple of the capacity.
multiple : (k : ℕ) → k ≤ 31 → 2 ^ 32 ≡ 2 ^ k * 2 ^ (32 - k)
multiple k h = let e : 32 ≡ k + (32 - k) = omega arith in ap (λ t. 2 ^ t) e ∙ pow2-add k (32 - k)

u32-mod-pow2 : (k x : ℕ) → k ≤ 31 → x % 2 ^ 32 % 2 ^ k ≡ x % 2 ^ k
u32-mod-pow2 k x h =
    mod-mod_of_dvd (2 ^ k) x
      (subst (λ t. 2 ^ k ∣ t) (sym (multiple k h)) (dvd-mul_right (2 ^ k) (2 ^ (32 - k))))

-- Before the mask, one turn more or less round the ring makes no difference.
turns :
    (cap c w r : ℕ)
    → 2 ^ 32 ≡ cap * c
    → 0 < c
    → r < cap
    → (w + 2 ^ 32 - r) % cap ≡ (w + cap - r) % cap
turns cap c w r e pos h =
    let e' : c ≡ c - 1 + 1 = omega arith in
    let d : w + 2 ^ 32 - r ≡ (w + cap - r) + cap * (c - 1) = omega (arith, ap (λ t. cap * t) e') in
    ap (λ t. t % cap) d ∙ add-mul-mod_self_left (w + cap - r) cap (c - 1)

pub available-distance :
    {r : Ring} → IsRing r → available_node_count r ≡ distance r.capacity r.read_index r.write_index
unfolding available_node_count
available-distance {r} v =
    let cap = r.capacity in
    let x = r.write_index + 2 ^ 32 - r.read_index in
    ap (λ t. bit_and (x % 2 ^ 32) (t - 1)) v.is_power
    ∙ bit_and_mask v.shift (x % 2 ^ 32)
    ∙ u32-mod-pow2 v.shift x v.shift_le
    ∙ ap (λ t. x % t) (sym v.is_power)
    ∙ turns cap (2 ^ (32 - v.shift)) r.write_index r.read_index
        (multiple v.shift v.shift_le ∙ ap (λ t. t * 2 ^ (32 - v.shift)) (sym v.is_power))
        (pow2_pos (32 - v.shift)) v.read_in
    ∙ mod-round cap r.write_index r.read_index v.read_in v.write_in

pub next_index-wrap :
    {r : Ring}
    → IsRing r
    → (i : ℕ) → i < r.capacity
    → next_index r.capacity i ≡ wrap_next r.capacity i
unfolding next_index
next_index-wrap {r} v i h =
    let cap = r.capacity in
    ap (λ t. bit_and ((i + 1) % 2 ^ 32) (t - 1)) v.is_power
    ∙ bit_and_mask v.shift ((i + 1) % 2 ^ 32)
    ∙ u32-mod-pow2 v.shift (i + 1) v.shift_le
    ∙ ap (λ t. (i + 1) % t) (sym v.is_power)
    ∙ ground (
      arith,
      mod_self cap,
      mod-eq_of_lt {n = i + 1} {m = cap},
      ap (λ t. t % cap) {x = i + 1} {y = cap},
    )
