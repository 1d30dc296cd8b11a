-- ===== src/Words.antt =====
-- NextPowerOfTwo of src/Common.cpp, and the byte order of src/Common.hpp, on words of 32 and 64 bits.
use Prim.Native.Nat.{bit_and, bit_or}
use tundra.Prelude.{ℕ, ◌+◌, ◌-◌, ◌*◌, ◌/◌, ◌%◌, ◌^◌, Option, some, leb, ◌==◌, check, ◌>>◌}

-- NextPowerOfTwo; its checks stop the program.
unfoldable pub next_power_of_two : ℕ → Option ℕ
next_power_of_two val =
    let m0 : ℕ = (val + (2 ^ 32 - 1)) % 2 ^ 32 in
    let m1 : ℕ = bit_or m0 (m0 / 2 ^ 16) in
    let m2 : ℕ = bit_or m1 (m1 / 2 ^ 8) in
    let m3 : ℕ = bit_or m2 (m2 / 2 ^ 4) in
    let m4 : ℕ = bit_or m3 (m3 / 2 ^ 2) in
    let mask : ℕ = bit_or m4 (m4 / 2) in
    let pow2 : ℕ = (mask + 1) % 2 ^ 32 in
    (check (leb val pow2)
      >> (check (bit_and pow2 mask == 0)
          >> (check (bit_and pow2 (2 ^ 32 - 1 - mask) == pow2) >> some pow2)))

-- LoadBigEndian32 and LoadBigEndian64, which are their own inverses.
unfoldable pub load_big_endian32 : ℕ → ℕ
load_big_endian32 v =
    v % 256 * 2 ^ 24 + v / 2 ^ 8 % 256 * 2 ^ 16 + v / 2 ^ 16 % 256 * 2 ^ 8 + v / 2 ^ 24 % 256

unfoldable pub load_big_endian64 : ℕ → ℕ
unfolding load_big_endian32
load_big_endian64 v =
    load_big_endian32 (v % 2 ^ 32) * 2 ^ 32 + load_big_endian32 (v / 2 ^ 32 % 2 ^ 32)
