-- ===== src/Endianness.antt =====
-- include/chat262_protocol/endianness.h, on a little-endian host, and how such a host lays out an
-- unsigned integer in memory.
pub mod Bits
pub mod Big
use native.Mathlib.Nat.{pow-suc}
use chat.Common.{
  ℕ, zero, suc, ◌+◌, ◌*◌, ◌/◌, ◌%◌, ◌^◌, ◌<◌, ◌≡◌, refl, ap, List, [], ◌∷◌, length, All, arith,
}

abbrev pub IsByte : ℕ → Type 0
IsByte b = b < 256

abbrev pub IsU32 : ℕ → Type 0
IsU32 x = x < 2 ^ 32

abbrev pub e_htole16 : ℕ → ℕ
e_htole16 x = x

abbrev pub e_htole32 : ℕ → ℕ
e_htole32 x = x

abbrev pub e_le16toh : ℕ → ℕ
e_le16toh x = x

abbrev pub e_le32toh : ℕ → ℕ
e_le32toh x = x

abbrev pub e_htole64 : ℕ → ℕ
e_htole64 x = x

abbrev pub e_le64toh : ℕ → ℕ
e_le64toh x = x

-- The bytes of an integer of `w` bytes in the host's memory.
unfoldable pub le_bytes : ℕ → ℕ → List ℕ
le_bytes zero x = []
le_bytes (suc w) x = (x % 256) ∷ le_bytes w (x / 256)

-- The integer that such bytes hold.
unfoldable pub le_value : List ℕ → ℕ
le_value [] = 0
le_value (b ∷ bs) = b + 256 * le_value bs

pub length-le_bytes : (w x : ℕ) → length (le_bytes w x) ≡ w
unfolding le_bytes
length-le_bytes zero x = refl
length-le_bytes (suc w) x = ap suc (length-le_bytes w (x / 256))

pub le_bytes-IsByte : (w x : ℕ) → All IsByte (le_bytes w x)
unfolding le_bytes
le_bytes-IsByte zero x = tt
le_bytes-IsByte (suc w) x = (omega arith, le_bytes-IsByte w (x / 256))

pow-suc_bytes : (w : ℕ) → 256 ^ suc w ≡ 256 * 256 ^ w
pow-suc_bytes w = omega (arith, pow-suc 256 w)

pub le_value-le_bytes : (w x : ℕ) → x < 256 ^ w → le_value (le_bytes w x) ≡ x
unfolding le_bytes le_value
le_value-le_bytes zero x h = omega arith
le_value-le_bytes (suc w) x h =
    omega (arith, le_value-le_bytes w (x / 256) (omega (arith, pow-suc_bytes w)))

pub le_bytes-le_value : (bs : List ℕ) → All IsByte bs → le_bytes (length bs) (le_value bs) ≡ bs
unfolding le_bytes le_value
le_bytes-le_value [] h = refl
le_bytes-le_value (b ∷ bs) (hb, hbs) = ground (arith, le_bytes-le_value bs hbs)

pub le_value-lt : (bs : List ℕ) → All IsByte bs → le_value bs < 256 ^ length bs
unfolding le_value
le_value-lt [] h = omega arith
le_value-lt (b ∷ bs) (hb, hbs) = omega (arith, le_value-lt bs hbs, pow-suc_bytes (length bs))
