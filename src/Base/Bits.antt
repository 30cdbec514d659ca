-- ===== src/Base/Bits.antt =====
-- `&` and `|` on the unbounded integers of Python, as arithmetic: the masks and the shifted
-- fields that the varint code uses.
use Prim.Native.Nat.{
  ℕ, zero, suc, ◌+◌, ◌*◌, ◌/◌, ◌%◌, ◌^◌, ◌≤◌, ◌<◌, min, max, bit_and, bit_or, digits,
  bit_and-bitwise, bit_or-bitwise,
}
use mathlib.Core.Path.{◌≡◌, refl, ap}
use native.Mathlib.Nat.{pow-suc}
use native.Mathlib.Omega.{arith}

-- The native operations stand for `digits` on as much fuel as the first number; more changes nothing.
module _ (rest : ℕ → ℕ) (combine : ℕ → ℕ → ℕ) where
  fuel_agrees :
      (x y k l : ℕ) → x ≤ k → x ≤ l → digits rest combine k x y ≡ digits rest combine l x y
  fuel_agrees zero y (suc k) (suc l) hk hl = refl
  fuel_agrees zero y (suc k) zero hk hl = refl
  fuel_agrees zero y zero (suc l) hk hl = refl
  fuel_agrees zero y zero zero hk hl = refl
  fuel_agrees (suc x) y zero l hk hl = absurd (omega arith)
  fuel_agrees (suc x) y (suc k) zero hk hl = absurd (omega arith)
  fuel_agrees (suc x) y (suc k) (suc l) hk hl =
      omega (arith, fuel_agrees (suc x / 2) (y / 2) k l (omega arith) (omega arith))

and_halves : (a b : ℕ) → bit_and a b ≡ bit_and (a / 2) (b / 2) * 2 + min (a % 2) (b % 2)
and_halves zero b = omega (arith, bit_and-bitwise 0 b, bit_and-bitwise 0 (b / 2))
and_halves (suc a) b = omega (
  arith,
  bit_and-bitwise (suc a) b,
  bit_and-bitwise (suc a / 2) (b / 2),
  fuel_agrees (λ b. 0) min (suc a / 2) (b / 2) a (suc a / 2) (omega arith) (omega arith),
)

or_halves : (a b : ℕ) → bit_or a b ≡ bit_or (a / 2) (b / 2) * 2 + max (a % 2) (b % 2)
or_halves zero b = omega (arith, bit_or-bitwise 0 b, bit_or-bitwise 0 (b / 2))
or_halves (suc a) b = omega (
  arith,
  bit_or-bitwise (suc a) b,
  bit_or-bitwise (suc a / 2) (b / 2),
  fuel_agrees (λ b. b) max (suc a / 2) (b / 2) a (suc a / 2) (omega arith) (omega arith),
)

bit_and-zero_below : (n a : ℕ) → a ≤ n → bit_and a 0 ≡ 0
bit_and-zero_below n zero h = refl
bit_and-zero_below zero (suc a) h = absurd (omega arith)
bit_and-zero_below (suc n) (suc a) h =
    omega (arith, and_halves (suc a) 0, bit_and-zero_below n (suc a / 2) (omega arith))

bit_and-one : (a : ℕ) → bit_and a 1 ≡ a % 2
bit_and-one a = omega (arith, and_halves a 1, bit_and-zero_below (a / 2) (a / 2) (omega arith))

mask_3 : (a : ℕ) → bit_and a 3 ≡ a % 4
mask_3 a = omega (arith, and_halves a 3, bit_and-one (a / 2))

mask_7 : (a : ℕ) → bit_and a 7 ≡ a % 8
mask_7 a = omega (arith, and_halves a 7, mask_3 (a / 2))

mask_15 : (a : ℕ) → bit_and a 15 ≡ a % 16
mask_15 a = omega (arith, and_halves a 15, mask_7 (a / 2))

mask_31 : (a : ℕ) → bit_and a 31 ≡ a % 32
mask_31 a = omega (arith, and_halves a 31, mask_15 (a / 2))

mask_63 : (a : ℕ) → bit_and a 63 ≡ a % 64
mask_63 a = omega (arith, and_halves a 63, mask_31 (a / 2))

-- `n & 0x7F` keeps the lowest seven bits.
pub low_bits : (a : ℕ) → bit_and a 0x7f ≡ a % 128
low_bits a = omega (arith, and_halves a 127, mask_63 (a / 2))

bit_or-zero : (b : ℕ) → bit_or 0 b ≡ b
bit_or-zero b = bit_or-bitwise 0 b

-- `value | (group << shift)` is a sum while `value` has not reached bit `shift`.
pub bit_or_shifted : (s v g : ℕ) → v < 2 ^ s → bit_or v (g * 2 ^ s) ≡ v + g * 2 ^ s
bit_or_shifted zero zero g h = omega (arith, bit_or-zero (g * 2 ^ 0))
bit_or_shifted zero (suc v) g h = absurd (omega arith)
bit_or_shifted (suc s) v g h = omega (
  arith,
  or_halves v (g * 2 ^ suc s),
  pow-suc 2 s,
  ap (λ (t : ℕ). g * t) (pow-suc 2 s),
  ap (λ (t : ℕ). bit_or (v / 2) t) (halved s g),
  bit_or_shifted s (v / 2) g (omega (arith, pow-suc 2 s)),
)
  where
    halved : (s g : ℕ) → g * 2 ^ suc s / 2 ≡ g * 2 ^ s
    halved s g = omega (arith, ap (λ (t : ℕ). g * t) (pow-suc 2 s))

-- `b | 0x80` sets the bit that seven bits leave clear.
pub set_top_bit : (b : ℕ) → b < 128 → bit_or b 0x80 ≡ b + 128
set_top_bit b h = bit_or_shifted 7 b 1 h

-- One bit of a number, as the code masks it.
bit_2 : (a : ℕ) → bit_and a 2 ≡ a / 2 % 2 * 2
bit_2 a = omega (arith, and_halves a 2, bit_and-one (a / 2))

bit_4 : (a : ℕ) → bit_and a 4 ≡ a / 4 % 2 * 4
bit_4 a = omega (arith, and_halves a 4, bit_2 (a / 2))

bit_8 : (a : ℕ) → bit_and a 8 ≡ a / 8 % 2 * 8
bit_8 a = omega (arith, and_halves a 8, bit_4 (a / 2))

bit_16 : (a : ℕ) → bit_and a 16 ≡ a / 16 % 2 * 16
bit_16 a = omega (arith, and_halves a 16, bit_8 (a / 2))

bit_32 : (a : ℕ) → bit_and a 32 ≡ a / 32 % 2 * 32
bit_32 a = omega (arith, and_halves a 32, bit_16 (a / 2))

bit_64 : (a : ℕ) → bit_and a 64 ≡ a / 64 % 2 * 64
bit_64 a = omega (arith, and_halves a 64, bit_32 (a / 2))

bit_128 : (a : ℕ) → bit_and a 128 ≡ a / 128 % 2 * 128
bit_128 a = omega (arith, and_halves a 128, bit_64 (a / 2))

-- `byte & 0x80` on a byte.
pub top_bit_clear : (b : ℕ) → b < 128 → bit_and b 0x80 ≡ 0
top_bit_clear b h = omega (arith, bit_128 b)

pub top_bit_set : (b : ℕ) → b < 128 → bit_and (b + 128) 0x80 ≡ 128
top_bit_set b h = omega (arith, bit_128 (b + 128))
