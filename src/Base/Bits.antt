-- ===== src/Base/Bits.antt =====
-- The operators &, | and ~ on the unsigned integers of 32 bits, bit by bit.
use Prim.Native.Nat.{ℕ, zero, suc, ◌+◌, ◌*◌, ◌/◌, ◌%◌, ◌<◌}
use mathlib.Core.Path.{◌≡◌}
use mathlib.Core.Bool.{Bool, true, false, not, ◌&&◌, ◌||◌}
use iamroot.Base.Tests.{◌==◌}
use native.Mathlib.Omega.{arith}

-- 1 << i & m
unfoldable pub has_bit : ℕ → ℕ → Bool
has_bit zero m = m % 2 == 1
has_bit (suc i) m = has_bit i (m / 2)

to_bit : Bool → ℕ
to_bit true = 1
to_bit false = 0

-- The operator f on the low bits of two integers.
bitwise : (Bool → Bool → Bool) → ℕ → ℕ → ℕ → ℕ
bitwise f zero a b = 0
bitwise f (suc width) a b =
    to_bit (f (a % 2 == 1) (b % 2 == 1)) + 2 * bitwise f width (a / 2) (b / 2)

unfoldable pub bit_and : ℕ → ℕ → ℕ
unfolding bitwise to_bit
bit_and a b = bitwise (λ x y. x && y) 32 a b

unfoldable pub bit_or : ℕ → ℕ → ℕ
unfolding bitwise to_bit
bit_or a b = bitwise (λ x y. x || y) 32 a b

-- a & ~b
unfoldable pub bit_clear : ℕ → ℕ → ℕ
unfolding bitwise to_bit
bit_clear a b = bitwise (λ x y. x && not y) 32 a b

low : (c : Bool) (q : ℕ) → ((to_bit c + 2 * q) % 2 == 1) ≡ c
unfolding to_bit
low true q = ground arith
low false q = ground arith

high : (c : Bool) (q : ℕ) → (to_bit c + 2 * q) / 2 ≡ q
unfolding to_bit
high true q = omega arith
high false q = omega arith

has_bit-bitwise :
    (f : Bool → Bool → Bool) (width a b i : ℕ)
    → i < width
    → has_bit i (bitwise f width a b) ≡ f (has_bit i a) (has_bit i b)
unfolding has_bit bitwise
has_bit-bitwise f zero a b i k = absurd (omega arith)
has_bit-bitwise f (suc width) a b zero k = low (f (a % 2 == 1) (b % 2 == 1)) _
has_bit-bitwise f (suc width) a b (suc i) k =
    rw (high (f (a % 2 == 1) (b % 2 == 1)) (bitwise f width (a / 2) (b / 2)))
      (has_bit-bitwise f width (a / 2) (b / 2) i (omega arith))

pub has_bit-bit_and : (a b i : ℕ) → i < 32 → has_bit i (bit_and a b) ≡ (has_bit i a && has_bit i b)
unfolding bit_and
has_bit-bit_and a b i k = has_bit-bitwise (λ x y. x && y) 32 a b i k

pub has_bit-bit_or : (a b i : ℕ) → i < 32 → has_bit i (bit_or a b) ≡ (has_bit i a || has_bit i b)
unfolding bit_or
has_bit-bit_or a b i k = has_bit-bitwise (λ x y. x || y) 32 a b i k

pub has_bit-bit_clear :
    (a b i : ℕ) → i < 32 → has_bit i (bit_clear a b) ≡ (has_bit i a && not (has_bit i b))
unfolding bit_clear
has_bit-bit_clear a b i k = has_bit-bitwise (λ x y. x && not y) 32 a b i k
