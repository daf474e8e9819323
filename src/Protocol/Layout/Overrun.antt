-- ===== src/Protocol/Layout/Overrun.antt =====
-- The check of the accounts and correspondents responses adds the lengths in a `uint32_t`: a body
-- whose lengths wrap round passes it and is then read past its end.
use chat.Common.{
  ℕ, ◌+◌, ◌<◌, ◌^◌, ◌≡◌, refl, sym, ◌++◌, [], ◌∷◌, length, arith, Str, List, done, halt,
  out_of_bounds, append_assoc, append-nil, length-append,
}
use chat.Endianness.{le_bytes, length-le_bytes}
use chat.Buffer.{Bytes, read_u32, read_bytes, read_u32_at}
use chat.Protocol.Layout.Strings.{read_lengths, read_strings}
use chat.Protocol.Layout.Names.{deserialize}

-- An OK status, the count 2 and two lengths, without any of the bytes announced.
unfoldable pub two_lengths : ℕ → ℕ → Bytes
two_lengths a b = le_bytes 4 0 ++ (le_bytes 4 2 ++ (le_bytes 4 a ++ le_bytes 4 b))

module _ (a b : ℕ) (a_fits : a < 2 ^ 32) (b_fits : b < 2 ^ 32) (wraps : a + b ≡ 2 ^ 32) where
  length-two_lengths : length (two_lengths a b) ≡ 16
  unfolding two_lengths
  length-two_lengths = grind (arith, length-append, length-le_bytes)

  read_status : read_u32 (two_lengths a b) 0 ≡ done 0
  unfolding two_lengths
  read_status = read_u32_at [] 0 _ refl refl (omega arith)

  read_count : read_u32 (two_lengths a b) 4 ≡ done 2
  unfolding two_lengths
  read_count =
      read_u32_at (le_bytes 4 0) 2 (le_bytes 4 a ++ le_bytes 4 b) refl (sym (length-le_bytes 4 0))
        (omega arith)

  read_a : read_u32 (two_lengths a b) 8 ≡ done a
  unfolding two_lengths
  read_a =
      read_u32_at (le_bytes 4 0 ++ le_bytes 4 2) a (le_bytes 4 b) (simp append_assoc)
        (grind (arith, length-append, length-le_bytes)) a_fits

  read_b : read_u32 (two_lengths a b) 12 ≡ done b
  unfolding two_lengths
  read_b =
      read_u32_at (le_bytes 4 0 ++ le_bytes 4 2 ++ le_bytes 4 a) b []
        (simp (append_assoc, append-nil)) (grind (arith, length-append, length-le_bytes)) b_fits

  read_both : read_lengths (two_lengths a b) 2 8 0 ≡ done (a ∷ b ∷ [], 0)
  unfolding read_lengths
  read_both = ground (arith, read_a, read_b)

  read_past : read_strings (two_lengths a b) (a ∷ b ∷ []) 16 ≡ halt out_of_bounds
  unfolding read_strings read_bytes
  read_past = ground (arith, length-two_lengths)

  -- A response with status OK that announces two strings, and ends behind their lengths, is read past
  -- its end, if the lengths are integers of 32 bits that add up to 2 ^ 32.
  pub deserialize-two_lengths :
      (old : List Str) → deserialize (two_lengths a b) old ≡ halt out_of_bounds
  unfolding deserialize
  deserialize-two_lengths old =
      ground (arith, length-two_lengths, read_status, read_count, read_both, read_past)
