-- ===== src/Protocol/Layout/Single.antt =====
-- A length and a string: the bodies of the accounts and receive text requests.
use chat.Common.{
  ℕ, ◌+◌, ◌%◌, ◌^◌, ◌<◌, ◌≡◌, ◌≢◌, refl, sym, ap, ◌∙◌, not, ◌++◌, [], length, take, drop, All,
  arith, ltb, nat_eq, if◌then◌else◌, Str, Outcome, done, fail, halt, Halt, body_error, ◌>>=◌,
  append-nil, length-append, take_of_le, take-append-drop, length-drop,
}
use chat.Endianness.{IsByte, e_htole16, e_htole32, le_bytes, le_value, length-le_bytes}
use chat.Buffer.{
  Bytes, read_bytes, read_u32, read_bytes_at, read_u32_at, read_bytes_in, read_u32_in,
  read_u32_bytes, read_bounded,
}
use chat.Protocol.Header.{version, MessageType, msgtype, Message}

abbrev pub body : Str → Bytes
body a = le_bytes 4 (e_htole32 (length a % 2 ^ 32)) ++ a

unfoldable pub serialize : MessageType → Str → Message
serialize type a = record {
  hdr_ = record {
    version_ = e_htole16 version;
    type_ = e_htole16 (msgtype type);
    body_len_ = e_htole32 ((4 + length a) % 2 ^ 32);
  };
  body_ = body a;
}

unfoldable pub deserialize : Bytes → Outcome Str
deserialize d = if ltb (length d) 4 then fail body_error else do
  a_len ← read_u32 d 0
  if not (nat_eq (4 + a_len) (length d)) then fail body_error else read_bytes d 4 a_len

module _ (a : Str) (fits : 4 + length a < 2 ^ 32) where
  pub length-body : length (body a) ≡ 4 + length a
  length-body = grind (arith, length-append, length-le_bytes)

  read_len : read_u32 (body a) 0 ≡ done (length a)
  read_len = read_u32_at [] (length a % 2 ^ 32) _ refl refl (omega arith) ∙ ap done (omega arith)

  read_a : read_bytes (body a) 4 (length a) ≡ done a
  read_a =
      read_bytes_at (le_bytes 4 (length a % 2 ^ 32)) a [] (simp append-nil)
        (sym (length-le_bytes 4 _)) refl

  pub deserialize-body : deserialize (body a) ≡ done a
  unfolding deserialize
  deserialize-body = ground (arith, length-body, read_len, read_a)

module _ (d : Bytes) where
  abbrev len : ℕ
  len = le_value (take 4 (drop 0 d))

  -- No read of `deserialize` leaves the buffer, whatever the bytes are.
  pub deserialize-ne-halt : (h : Halt) → deserialize d ≢ halt h
  unfolding deserialize
  deserialize-ne-halt h = ground (arith, read_u32_in d 0, read_bytes_in d 4 len)

  deserialize_inv :
      (a : Str) → deserialize d ≡ done a → (length d ≡ 4 + len) × (a ≡ take len (drop 4 d))
  unfolding deserialize
  deserialize_inv a e = ground (arith, read_u32_in d 0, read_bytes_in d 4 len)

  -- What is accepted is the body of exactly the string that is returned.
  pub deserialize-exact : (a : Str) → All IsByte d → deserialize d ≡ done a → d ≡ body a
  deserialize-exact a bytes e =
      cc (take-append-drop 4 d, whole, len_a, read_u32_bytes d 0 bytes (omega (arith, l)))
    where
      l : length d ≡ 4 + len
      l = (deserialize_inv a e).0

      whole : a ≡ drop 4 d
      whole =
          (deserialize_inv a e).1 ∙ take_of_le len (drop 4 d) (omega (arith, l, length-drop 4 d))

      len_a : length a % 2 ^ 32 ≡ len
      len_a =
          omega
            (arith, l, ap length whole, length-drop 4 d, read_bounded d 0 bytes (omega (arith, l)))
