-- ===== src/Endianness/Big.antt =====
-- The conversions of endianness.h to and from big-endian integers, on a little-endian host.
use Prim.Native.Nat.{bit_and, bit_or}
use mathlib.Core.List.{reverse, reverse_aux, reverse-reverse}
use chat.Common.{
  ℕ, ◌+◌, ◌*◌, ◌/◌, ◌%◌, ◌^◌, ◌<◌, ◌≡◌, refl, ap, subst, ◌∙◌, sym, List, [], ◌∷◌, length, All,
  arith,
}
use chat.Endianness.{
  IsByte, le_bytes, le_value, length-le_bytes, le_bytes-IsByte, le_value-le_bytes,
  le_bytes-le_value, le_value-lt,
}
use chat.Endianness.Bits.{byte_at, weight, bit_and_mask, bit_or_above}

-- `x >> n`, and `x << n` in an unsigned type of `w` bits
abbrev pub shr : ℕ → ℕ → ℕ
shr x n = x / 2 ^ n

abbrev pub shl : ℕ → ℕ → ℕ → ℕ
shl w x n = x * 2 ^ n % 2 ^ w

-- A `uint16_t` is promoted to `int`; its shift is less than 2 ^ 24.
unfoldable pub e_htobe16 : ℕ → ℕ
e_htobe16 x = bit_or (bit_and (shr x 8) 0xFF) (bit_and (shl 32 x 8) 0xFF00)

unfoldable pub e_htobe32 : ℕ → ℕ
e_htobe32 x =
    bit_or
      (bit_or (bit_or (bit_and (shr x 24) 0xFF) (bit_and (shr x 8) 0xFF00))
        (bit_and (shl 32 x 8) 0xFF0000))
      (bit_and (shl 32 x 24) 0xFF000000)

unfoldable pub e_htobe64 : ℕ → ℕ
e_htobe64 x =
    bit_or
      (bit_or
        (bit_or
          (bit_or
            (bit_or
              (bit_or (bit_or (bit_and (shr x 56) 0xFF) (bit_and (shr x 40) 0xFF00))
                (bit_and (shr x 24) 0xFF0000))
              (bit_and (shr x 8) 0xFF000000))
            (bit_and (shl 64 x 8) 0xFF00000000))
          (bit_and (shl 64 x 24) 0xFF0000000000))
        (bit_and (shl 64 x 40) 0xFF000000000000))
      (bit_and (shl 64 x 56) 0xFF00000000000000)

unfoldable pub e_be16toh : ℕ → ℕ
e_be16toh x = bit_or (bit_and (shr x 8) 0xFF) (bit_and (shl 32 x 8) 0xFF00)

unfoldable pub e_be32toh : ℕ → ℕ
e_be32toh x =
    bit_or
      (bit_or (bit_or (bit_and (shr x 24) 0xFF) (bit_and (shr x 8) 0xFF00))
        (bit_and (shl 32 x 8) 0xFF0000))
      (bit_and (shl 32 x 24) 0xFF000000)

unfoldable pub e_be64toh : ℕ → ℕ
e_be64toh x =
    bit_or
      (bit_or
        (bit_or
          (bit_or
            (bit_or
              (bit_or (bit_or (bit_and (shr x 56) 0xFF) (bit_and (shr x 40) 0xFF00))
                (bit_and (shr x 24) 0xFF0000))
              (bit_and (shr x 8) 0xFF000000))
            (bit_and (shl 64 x 8) 0xFF00000000))
          (bit_and (shl 64 x 24) 0xFF0000000000))
        (bit_and (shl 64 x 40) 0xFF000000000000))
      (bit_and (shl 64 x 56) 0xFF00000000000000)

-- The integer of `n` bytes with the bytes of `x` in reverse.
abbrev pub swapped : ℕ → ℕ → ℕ
swapped n x = le_value (reverse (le_bytes n x))

-- A term that adds the byte of weight 256 ^ k to a number below.
or_mask :
    (k a d : ℕ) {o b : ℕ}
    → o ≡ b
    → b < weight k
    → byte_at k a ≡ d
    → bit_or o (bit_and a (weight k * 255)) ≡ b + weight k * d
or_mask k a d {o} {b} e h m =
    ap (λ (c : ℕ). bit_or c (bit_and a (weight k * 255))) e
    ∙ ap (bit_or b) (bit_and_mask k a ∙ ap (λ c. weight k * c) m)
    ∙ bit_or_above k b d h

e_htobe16-swapped : (x : ℕ) → x < 2 ^ 16 → e_htobe16 x ≡ swapped 2 x
unfolding e_htobe16 le_bytes le_value
e_htobe16-swapped x h =
    let e0 = bit_and_mask 0 (shr x 8) in
    let e1 = or_mask 1 (shl 32 x 8) (byte_at 0 x) e0 (omega arith) (omega arith) in e1 ∙ omega arith

e_htobe32-swapped : (x : ℕ) → x < 2 ^ 32 → e_htobe32 x ≡ swapped 4 x
unfolding e_htobe32 le_bytes le_value
e_htobe32-swapped x h =
    let e0 = bit_and_mask 0 (shr x 24) in
    let e1 = or_mask 1 (shr x 8) (byte_at 2 x) e0 (omega arith) (omega arith) in
    let e2 = or_mask 2 (shl 32 x 8) (byte_at 1 x) e1 (omega arith) (omega arith) in
    let e3 = or_mask 3 (shl 32 x 24) (byte_at 0 x) e2 (omega arith) (omega arith) in
    e3 ∙ omega arith

e_htobe64-swapped : (x : ℕ) → x < 2 ^ 64 → e_htobe64 x ≡ swapped 8 x
unfolding e_htobe64 le_bytes le_value
e_htobe64-swapped x h =
    let e0 = bit_and_mask 0 (shr x 56) in
    let e1 = or_mask 1 (shr x 40) (byte_at 6 x) e0 (omega arith) (omega arith) in
    let e2 = or_mask 2 (shr x 24) (byte_at 5 x) e1 (omega arith) (omega arith) in
    let e3 = or_mask 3 (shr x 8) (byte_at 4 x) e2 (omega arith) (omega arith) in
    let e4 = or_mask 4 (shl 64 x 8) (byte_at 3 x) e3 (omega arith) (omega arith) in
    let e5 = or_mask 5 (shl 64 x 24) (byte_at 2 x) e4 (omega arith) (omega arith) in
    let e6 = or_mask 6 (shl 64 x 40) (byte_at 1 x) e5 (omega arith) (omega arith) in
    let e7 = or_mask 7 (shl 64 x 56) (byte_at 0 x) e6 (omega arith) (omega arith) in
    e7 ∙ omega arith

-- The widths of the conversions, in bytes.
pub data Width : Type 0 where
  two four eight : Width

abbrev pub bytes_of : Width → ℕ
bytes_of two = 2
bytes_of four = 4
bytes_of eight = 8

-- The conversion of each width, to a big-endian integer and from one.
abbrev pub to_big : Width → ℕ → ℕ
to_big two = e_htobe16
to_big four = e_htobe32
to_big eight = e_htobe64

abbrev pub from_big : Width → ℕ → ℕ
from_big two = e_be16toh
from_big four = e_be32toh
from_big eight = e_be64toh

to_big-swapped : (w : Width) (x : ℕ) → x < 256 ^ bytes_of w → to_big w x ≡ swapped (bytes_of w) x
to_big-swapped two x h = e_htobe16-swapped x h
to_big-swapped four x h = e_htobe32-swapped x h
to_big-swapped eight x h = e_htobe64-swapped x h

from_big_same : (w : Width) (x : ℕ) → from_big w x ≡ to_big w x
unfolding e_htobe16 e_htobe32 e_htobe64 e_be16toh e_be32toh e_be64toh
from_big_same two x = refl
from_big_same four x = refl
from_big_same eight x = refl

length-reverse_aux {ℓ} :
    {A : Type ℓ} (xs ys : List A) → length (reverse_aux xs ys) ≡ length xs + length ys
length-reverse_aux [] ys = omega arith
length-reverse_aux (x ∷ xs) ys = omega (arith, length-reverse_aux xs (x ∷ ys))

All-reverse_aux {ℓ κ} :
    {A : Type ℓ} (P : A → Type κ) (xs ys : List A) → All P xs → All P ys → All P (reverse_aux xs ys)
All-reverse_aux P [] ys h k = k
All-reverse_aux P (x ∷ xs) ys (p, h) k = All-reverse_aux P xs (x ∷ ys) h (p, k)

-- The bytes of `x` in reverse are the bytes of an integer of the same width.
swapped_bytes : (n x : ℕ) → le_bytes n (swapped n x) ≡ reverse (le_bytes n x)
swapped_bytes n x =
    let bs = reverse (le_bytes n x) in
    let l : length bs ≡ n =
      omega (arith, length-reverse_aux (le_bytes n x) [], length-le_bytes n x) in
    ap (λ m. le_bytes m (le_value bs)) (sym l)
    ∙ le_bytes-le_value bs (All-reverse_aux IsByte (le_bytes n x) [] (le_bytes-IsByte n x) tt)

swapped-lt : (n x : ℕ) → swapped n x < 256 ^ n
swapped-lt n x =
    let bs = reverse (le_bytes n x) in
    let l : length bs ≡ n =
      omega (arith, length-reverse_aux (le_bytes n x) [], length-le_bytes n x) in
    subst (λ m. le_value bs < 256 ^ m) l
      (le_value-lt bs (All-reverse_aux IsByte (le_bytes n x) [] (le_bytes-IsByte n x) tt))

-- On a little-endian host, an integer that fits its width and is converted to a big-endian one has
-- its bytes in reverse, for each of the three widths.
pub to_big-bytes :
    (w : Width) (x : ℕ)
    → x < 256 ^ bytes_of w
    → le_bytes (bytes_of w) (to_big w x) ≡ reverse (le_bytes (bytes_of w) x)
to_big-bytes w x h =
    ap (le_bytes (bytes_of w)) (to_big-swapped w x h) ∙ swapped_bytes (bytes_of w) x

-- Converted to a big-endian integer and back, an integer is as before, for each of the three widths.
pub from_big-to_big : (w : Width) (x : ℕ) → x < 256 ^ bytes_of w → from_big w (to_big w x) ≡ x
from_big-to_big w x h =
    let n = bytes_of w in
    let small : to_big w x < 256 ^ n =
      subst (λ y. y < 256 ^ n) (sym (to_big-swapped w x h)) (swapped-lt n x) in
    from_big_same w (to_big w x)
    ∙ to_big-swapped w (to_big w x) small
    ∙ ap (λ bs. le_value (reverse bs)) (to_big-bytes w x h)
    ∙ ap le_value (reverse-reverse (le_bytes n x))
    ∙ le_value-le_bytes n x h
