-- ===== src/Common/Bits.antt =====
-- Masks of high bits: what `&` with one keeps of a 32-bit number.
use Prim.Native.Nat.{
  ℕ, zero, suc, ◌+◌, ◌-◌, ◌*◌, ◌/◌, ◌%◌, ◌^◌, ◌≤◌, ◌<◌, min, bit_and, digits, bit_and-bitwise,
}
use mathlib.Core.Path.{◌≡◌, refl, ap}
use native.Mathlib.Omega.{arith}
use native.Mathlib.Nat.{div-one, mul-one, mul_assoc, pow-suc, pow-succ', div-div-eq-div-mul}

-- The digits of `x & y`, computed with as much fuel as is given.
abbrev conj : ℕ → ℕ → ℕ → ℕ
conj fuel x y = digits (λ d. 0) min fuel x y

-- Any fuel that is at least the first number gives the same digits.
conj_enough : (x y fuel other : ℕ) → x ≤ fuel → x ≤ other → conj fuel x y ≡ conj other x y
conj_enough zero y zero zero h k = refl
conj_enough zero y zero (suc other) h k = refl
conj_enough zero y (suc fuel) zero h k = refl
conj_enough zero y (suc fuel) (suc other) h k = refl
conj_enough (suc x) y zero other h k = absurd (omega arith)
conj_enough (suc x) y (suc fuel) zero h k = absurd (omega arith)
conj_enough (suc x) y (suc fuel) (suc other) h k =
    omega (arith, conj_enough (suc x / 2) (y / 2) fuel other (omega arith) (omega arith))

pub bit_and_zero : (y : ℕ) → bit_and 0 y ≡ 0
bit_and_zero y = bit_and-bitwise 0 y

-- The lowest digit and the others.
pub bit_and_lowest : (x y : ℕ) → bit_and x y ≡ min (x % 2) (y % 2) + 2 * bit_and (x / 2) (y / 2)
bit_and_lowest zero y = omega (arith, bit_and_zero y, bit_and_zero (y / 2))
bit_and_lowest (suc x) y = omega (
  arith,
  bit_and-bitwise (suc x / 2) (y / 2),
  bit_and-bitwise (suc x) y,
  conj_enough (suc x / 2) (y / 2) x (suc x / 2) (omega arith) (omega arith),
)

-- A mask of `n` ones keeps a number of `n` bits.
pub bit_and_ones : (n x m : ℕ) → x < 2 ^ n → m + 1 ≡ 2 ^ n → bit_and x m ≡ x
bit_and_ones zero zero m h e = bit_and_zero m
bit_and_ones zero (suc x) m h e = absurd (omega arith)
bit_and_ones (suc n) x m h e =
    omega (arith, bit_and_lowest x m, bit_and_ones n (x / 2) (m / 2) (omega arith) (omega arith))

shift_one : (m k : ℕ) → m * 2 ^ suc k ≡ m * 2 * 2 ^ k
shift_one m k = omega (arith, ap (λ q. m * q) (pow-succ' 2 k), mul_assoc m 2 (2 ^ k))

half : (x k : ℕ) → x / 2 ^ k / 2 ≡ x / 2 ^ suc k
half x k = rw pow-suc (div-div-eq-div-mul x (2 ^ k) 2)

undouble : (m : ℕ) → m * 2 / 2 ≡ m
undouble m = omega arith

double : (y m : ℕ) → bit_and y (m * 2) ≡ bit_and (y / 2) m * 2
double y m = omega (arith, bit_and_lowest y (m * 2), ap (bit_and (y / 2)) (undouble m))

-- Behind `k` zeros a mask keeps the digits from the `k`-th on.
pub bit_and_shifted : (k x m : ℕ) → bit_and x (m * 2 ^ k) ≡ bit_and (x / 2 ^ k) m * 2 ^ k
bit_and_shifted zero x m = simp (div-one, mul-one)
bit_and_shifted (suc k) x m = cc (
  shift_one m k,
  bit_and_shifted k x (m * 2),
  double (x / 2 ^ k) m,
  half x k,
  shift_one (bit_and (x / 2 ^ suc k) m) k,
)

-- `x & mask`, where the mask of 32 bits has the highest 32 - k of them, keeps `x` rounded down.
pub bit_and-mask :
    (k x m : ℕ)
    → x / 2 ^ k < 2 ^ (32 - k)
    → m + 1 ≡ 2 ^ (32 - k)
    → bit_and x (m * 2 ^ k) ≡ x / 2 ^ k * 2 ^ k
bit_and-mask k x m h e = cc (bit_and_shifted k x m, bit_and_ones (32 - k) (x / 2 ^ k) m h e)
