-- ===== src/Endianness/Bits.antt =====
-- `&` with the mask of one byte and `|` of numbers that share no byte, by division and remainder.
use Prim.Native.Nat.{min, max, digits, bit_and, bit_or, bit_and-bitwise, bit_or-bitwise}
use chat.Common.{ℕ, zero, suc, ◌+◌, ◌*◌, ◌/◌, ◌%◌, ◌<◌, ◌≤◌, ◌≡◌, refl, ap, arith}

-- Enough fuel gives the same digits.
digits_fuel :
    (z : ℕ → ℕ) (f : ℕ → ℕ → ℕ) (n m a b : ℕ) → a ≤ n → a ≤ m → digits z f n a b ≡ digits z f m a b
digits_fuel z f zero zero a b p q = refl
digits_fuel z f zero (suc m) zero b p q = refl
digits_fuel z f zero (suc m) (suc a) b p q = absurd (omega arith)
digits_fuel z f (suc n) zero zero b p q = refl
digits_fuel z f (suc n) zero (suc a) b p q = absurd (omega arith)
digits_fuel z f (suc n) (suc m) zero b p q = refl
digits_fuel z f (suc n) (suc m) (suc a) b p q =
    ap (λ d. d * 2 + f (suc a % 2) (b % 2))
      (digits_fuel z f n m (suc a / 2) (b / 2) (omega arith) (omega arith))

-- An operation takes the lowest digits apart, if it does so where the first number has run out.
digits_lowest :
    (z : ℕ → ℕ) (f : ℕ → ℕ → ℕ)
    → ((b : ℕ) → z b ≡ z (b / 2) * 2 + f 0 (b % 2))
    → (a b : ℕ) → digits z f a a b ≡ digits z f (a / 2) (a / 2) (b / 2) * 2 + f (a % 2) (b % 2)
digits_lowest z f h zero b = h b
digits_lowest z f h (suc a) b =
    ap (λ d. d * 2 + f (suc a % 2) (b % 2))
      (digits_fuel z f a (suc a / 2) (suc a / 2) (b / 2) (omega arith) (omega arith))

bit_and_lowest : (a b : ℕ) → bit_and a b ≡ bit_and (a / 2) (b / 2) * 2 + min (a % 2) (b % 2)
bit_and_lowest a b = omega (
  arith,
  bit_and-bitwise a b,
  bit_and-bitwise (a / 2) (b / 2),
  digits_lowest (λ b. zero) min (λ b. omega arith) a b,
)

bit_or_lowest : (a b : ℕ) → bit_or a b ≡ bit_or (a / 2) (b / 2) * 2 + max (a % 2) (b % 2)
bit_or_lowest a b = omega (
  arith,
  bit_or-bitwise a b,
  bit_or-bitwise (a / 2) (b / 2),
  digits_lowest (λ b. b) max (λ b. omega arith) a b,
)

bit_and_double : (a m : ℕ) → bit_and a (2 * m) ≡ 2 * bit_and (a / 2) m
bit_and_double a m =
    let half : 2 * m / 2 ≡ m = omega arith in
    omega (arith, bit_and_lowest a (2 * m), ap (bit_and (a / 2)) half)

bit_or_double : (b a : ℕ) → bit_or b (2 * a) ≡ 2 * bit_or (b / 2) a + b % 2
bit_or_double b a =
    let half : 2 * a / 2 ≡ a = omega arith in
    omega (arith, bit_or_lowest b (2 * a), ap (bit_or (b / 2)) half)

-- Two, four and eight digits at once.
bit_and_double2 : (a m : ℕ) → bit_and a (4 * m) ≡ 4 * bit_and (a / 4) m
bit_and_double2 a m =
    let e : 4 * m ≡ 2 * (2 * m) = omega arith in
    let d : a / 2 / 2 ≡ a / 4 = omega arith in
    omega (
      arith,
      ap (bit_and a) e,
      bit_and_double a (2 * m),
      bit_and_double (a / 2) m,
      ap (λ x. bit_and x m) d,
    )

bit_and_double4 : (a m : ℕ) → bit_and a (16 * m) ≡ 16 * bit_and (a / 16) m
bit_and_double4 a m =
    let e : 16 * m ≡ 4 * (4 * m) = omega arith in
    let d : a / 4 / 4 ≡ a / 16 = omega arith in
    omega (
      arith,
      ap (bit_and a) e,
      bit_and_double2 a (4 * m),
      bit_and_double2 (a / 4) m,
      ap (λ x. bit_and x m) d,
    )

pub bit_and_byte : (a m : ℕ) → bit_and a (256 * m) ≡ 256 * bit_and (a / 256) m
bit_and_byte a m =
    let e : 256 * m ≡ 16 * (16 * m) = omega arith in
    let d : a / 16 / 16 ≡ a / 256 = omega arith in
    omega (
      arith,
      ap (bit_and a) e,
      bit_and_double4 a (16 * m),
      bit_and_double4 (a / 16) m,
      ap (λ x. bit_and x m) d,
    )

bit_or_double2 : (b a : ℕ) → bit_or b (4 * a) ≡ 4 * bit_or (b / 4) a + b % 4
bit_or_double2 b a =
    let e : 4 * a ≡ 2 * (2 * a) = omega arith in
    let d : b / 2 / 2 ≡ b / 4 = omega arith in
    omega (
      arith,
      ap (bit_or b) e,
      bit_or_double b (2 * a),
      bit_or_double (b / 2) a,
      ap (λ x. bit_or x a) d,
    )

bit_or_double4 : (b a : ℕ) → bit_or b (16 * a) ≡ 16 * bit_or (b / 16) a + b % 16
bit_or_double4 b a =
    let e : 16 * a ≡ 4 * (4 * a) = omega arith in
    let d : b / 4 / 4 ≡ b / 16 = omega arith in
    omega (
      arith,
      ap (bit_or b) e,
      bit_or_double2 b (4 * a),
      bit_or_double2 (b / 4) a,
      ap (λ x. bit_or x a) d,
    )

pub bit_or_byte : (b a : ℕ) → bit_or b (256 * a) ≡ 256 * bit_or (b / 256) a + b % 256
bit_or_byte b a =
    let e : 256 * a ≡ 16 * (16 * a) = omega arith in
    let d : b / 16 / 16 ≡ b / 256 = omega arith in
    omega (
      arith,
      ap (bit_or b) e,
      bit_or_double4 b (16 * a),
      bit_or_double4 (b / 16) a,
      ap (λ x. bit_or x a) d,
    )

bit_and_none : (n a : ℕ) → a ≤ n → bit_and a 0 ≡ 0
bit_and_none zero zero h = refl
bit_and_none zero (suc a) h = absurd (omega arith)
bit_and_none (suc n) zero h = refl
bit_and_none (suc n) (suc a) h =
    omega (arith, bit_and_lowest (suc a) 0, bit_and_none n (suc a / 2) (omega arith))

bit_and_odd : (a m : ℕ) → bit_and a (2 * m + 1) ≡ 2 * bit_and (a / 2) m + a % 2
bit_and_odd a m =
    let half : (2 * m + 1) / 2 ≡ m = omega arith in
    omega (arith, bit_and_lowest a (2 * m + 1), ap (bit_and (a / 2)) half)

-- The mask of the lowest byte.
pub bit_and_ones : (a : ℕ) → bit_and a 255 ≡ a % 256
bit_and_ones a = omega (
  arith,
  bit_and_odd a 127,
  bit_and_odd (a / 2) 63,
  bit_and_odd (a / 2 / 2) 31,
  bit_and_odd (a / 2 / 2 / 2) 15,
  bit_and_odd (a / 2 / 2 / 2 / 2) 7,
  bit_and_odd (a / 2 / 2 / 2 / 2 / 2) 3,
  bit_and_odd (a / 2 / 2 / 2 / 2 / 2 / 2) 1,
  bit_and_odd (a / 2 / 2 / 2 / 2 / 2 / 2 / 2) 0,
  bit_and_none a (a / 2 / 2 / 2 / 2 / 2 / 2 / 2 / 2) (omega arith),
)

-- The byte of weight 256 ^ k.
abbrev pub byte_at : ℕ → ℕ → ℕ
byte_at zero x = x % 256
byte_at (suc k) x = byte_at k (x / 256)

abbrev pub weight : ℕ → ℕ
weight zero = 1
weight (suc k) = 256 * weight k

pub bit_and_mask : (k a : ℕ) → bit_and a (weight k * 255) ≡ weight k * byte_at k a
bit_and_mask zero a = omega (arith, bit_and_ones a)
bit_and_mask (suc k) a =
    let e : 256 * weight k * 255 ≡ 256 * (weight k * 255) = omega arith in
    omega (arith, ap (bit_and a) e, bit_and_byte a (weight k * 255), bit_and_mask k (a / 256))

pub bit_or_above : (k b a : ℕ) → b < weight k → bit_or b (weight k * a) ≡ b + weight k * a
bit_or_above zero b a h =
    let e : b ≡ 0 = omega arith in
    let d : 1 * a ≡ a = omega arith in
    omega (arith, ap (λ x. bit_or x (1 * a)) e, bit_or-bitwise 0 (1 * a))
bit_or_above (suc k) b a h =
    let e : 256 * weight k * a ≡ 256 * (weight k * a) = omega arith in
    omega (
      arith,
      ap (bit_or b) e,
      bit_or_byte b (weight k * a),
      bit_or_above k (b / 256) a (omega arith),
    )
