-- ===== src/Buffer.antt =====
-- Reads from a `std::vector<uint8_t>` through its `data()` pointer: `memcpy` and `assign` at an
-- offset. A read that would leave the buffer is the fault `out_of_bounds`.
use chat.Common.{
  ℕ, zero, suc, ◌+◌, ◌^◌, ◌≤◌, ◌≡◌, sym, ap, ◌∙◌, List, [], ◌∷◌, ◌++◌, length, take, drop, All,
  arith, leb, if◌then◌else◌, Outcome, done, halt, out_of_bounds, ◌>>=◌, length-append, take-append,
  drop-append, le→leb, length-drop, length-take, All-take, All-drop,
}
use chat.Endianness.{
  IsByte, IsU32, e_le32toh, le_bytes, le_value, length-le_bytes, le_value-le_bytes, le_value-lt,
  le_bytes-le_value,
}

abbrev pub Bytes : Type 0
Bytes = List ℕ

unfoldable pub read_bytes : Bytes → ℕ → ℕ → Outcome Bytes
read_bytes d off len =
    if leb (off + len) (length d) then done (take len (drop off d)) else halt out_of_bounds

-- `uint32_t x; memcpy(&x, p, sizeof(uint32_t)); e_le32toh(x)`
unfoldable pub read_u32 : Bytes → ℕ → Outcome ℕ
read_u32 d off = do b ← read_bytes d off 4; done (e_le32toh (le_value b))

pub read_bytes_at :
    (pre mid post : Bytes) {d : Bytes} {off len : ℕ}
    → d ≡ pre ++ (mid ++ post)
    → off ≡ length pre
    → len ≡ length mid
    → read_bytes d off len ≡ done mid
unfolding read_bytes
read_bytes_at pre mid post e o l =
    rw (e, o, l, le→leb _ _ fits) (rw (drop-append pre (mid ++ post), take-append mid post))
  where
    fits : length pre + length mid ≤ length (pre ++ (mid ++ post))
    fits = omega (arith, length-append pre (mid ++ post), length-append mid post)

pub read_u32_at :
    (pre : Bytes) (x : ℕ) (post : Bytes) {d : Bytes} {off : ℕ}
    → d ≡ pre ++ (le_bytes 4 x ++ post)
    → off ≡ length pre
    → IsU32 x
    → read_u32 d off ≡ done x
unfolding read_u32
read_u32_at pre x post e o h =
    rw (
      read_bytes_at pre (le_bytes 4 x) post e o (sym (length-le_bytes 4 x)),
      le_value-le_bytes 4 x h,
    )

-- Within the buffer a read succeeds.
pub read_bytes_in :
    (d : Bytes) (off len : ℕ)
    → off + len ≤ length d
    → read_bytes d off len ≡ done (take len (drop off d))
unfolding read_bytes
read_bytes_in d off len h = rw (le→leb _ _ h)

pub read_u32_in :
    (d : Bytes) (off : ℕ)
    → off + 4 ≤ length d
    → read_u32 d off ≡ done (le_value (take 4 (drop off d)))
unfolding read_u32
read_u32_in d off h = rw (read_bytes_in d off 4 h)

-- The four bytes behind a number that was read.
pub read_u32_bytes :
    (d : Bytes) (off : ℕ)
    → All IsByte d
    → off + 4 ≤ length d
    → le_bytes 4 (le_value (take 4 (drop off d))) ≡ take 4 (drop off d)
read_u32_bytes d off h fits =
    ap (λ w. le_bytes w (le_value (take 4 (drop off d)))) (sym four)
    ∙ le_bytes-le_value (take 4 (drop off d)) (All-take IsByte 4 _ (All-drop IsByte off d h))
  where
    four : length (take 4 (drop off d)) ≡ 4
    four = omega (arith, length-take 4 (drop off d), length-drop off d)

pub read_bounded :
    (d : Bytes) (off : ℕ)
    → All IsByte d
    → off + 4 ≤ length d
    → IsU32 (le_value (take 4 (drop off d)))
read_bounded d off h fits = omega (
  arith,
  le_value-lt (take 4 (drop off d)) (All-take IsByte 4 _ (All-drop IsByte off d h)),
  ap (λ w. 256 ^ w) four,
)
  where
    four : length (take 4 (drop off d)) ≡ 4
    four = omega (arith, length-take 4 (drop off d), length-drop off d)

-- `resize` of an empty vector
abbrev pub zeros : ℕ → Bytes
zeros zero = []
zeros (suc n) = 0 ∷ zeros n
