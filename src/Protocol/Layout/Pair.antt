-- ===== src/Protocol/Layout/Pair.antt =====
-- Two lengths and two strings: the bodies of the registration, login and send text requests.
use chat.Common.{
  ℕ, ◌+◌, ◌*◌, ◌%◌, ◌^◌, ◌<◌, ◌≡◌, ◌≢◌, refl, sym, ap, ◌∙◌, not, ◌++◌, [], length, take, drop, All,
  arith, ltb, nat_eq, if◌then◌else◌, Str, Outcome, done, fail, halt, Halt, body_error, ◌>>=◌,
  append_assoc, append-nil, length-append, take_of_le, drop-drop, take-append-drop, length-drop,
  length-take,
}
use chat.Endianness.{IsByte, e_htole16, e_htole32, le_bytes, le_value, length-le_bytes}
use chat.Buffer.{
  Bytes, read_bytes, read_u32, read_bytes_at, read_u32_at, read_bytes_in, read_u32_in,
  read_u32_bytes, read_bounded,
}
use chat.Protocol.Header.{version, MessageType, msgtype, Message}

abbrev pub body : Str → Str → Bytes
body a b =
    le_bytes 4 (e_htole32 (length a % 2 ^ 32))
    ++ (le_bytes 4 (e_htole32 (length b % 2 ^ 32)) ++ (a ++ b))

unfoldable pub serialize : MessageType → Str → Str → Message
serialize type a b = record {
  hdr_ = record {
    version_ = e_htole16 version;
    type_ = e_htole16 (msgtype type);
    body_len_ = e_htole32 ((2 * 4 + length a + length b) % 2 ^ 32);
  };
  body_ = body a b;
}

unfoldable pub deserialize : Bytes → Outcome (Str × Str)
deserialize d = if ltb (length d) (2 * 4) then fail body_error else do
  a_len ← read_u32 d 0
  b_len ← read_u32 d 4
  if not (nat_eq (2 * 4 + a_len + b_len) (length d))
      then fail body_error
      else do a ← read_bytes d 8 a_len; b ← read_bytes d (8 + a_len) b_len; done (a, b)

module _ (a b : Str) (fits : 8 + length a + length b < 2 ^ 32) where
  pub length-body : length (body a b) ≡ 8 + length a + length b
  length-body = grind (arith, length-append, length-le_bytes)

  read_first : read_u32 (body a b) 0 ≡ done (length a)
  read_first = read_u32_at [] (length a % 2 ^ 32) _ refl refl (omega arith) ∙ ap done (omega arith)

  read_second : read_u32 (body a b) 4 ≡ done (length b)
  read_second =
      read_u32_at (le_bytes 4 (length a % 2 ^ 32)) (length b % 2 ^ 32) _ refl
        (sym (length-le_bytes 4 _)) (omega arith)
      ∙ ap done (omega arith)

  read_a : read_bytes (body a b) 8 (length a) ≡ done a
  read_a =
      read_bytes_at (le_bytes 4 (length a % 2 ^ 32) ++ le_bytes 4 (length b % 2 ^ 32)) a b
        (simp append_assoc) (grind (arith, length-append, length-le_bytes)) refl

  read_b : read_bytes (body a b) (8 + length a) (length b) ≡ done b
  read_b =
      read_bytes_at (le_bytes 4 (length a % 2 ^ 32) ++ le_bytes 4 (length b % 2 ^ 32) ++ a) b []
        (simp (append_assoc, append-nil)) (grind (arith, length-append, length-le_bytes)) refl

  pub deserialize-body : deserialize (body a b) ≡ done (a, b)
  unfolding deserialize
  deserialize-body = ground (arith, length-body, read_first, read_second, read_a, read_b)

module _ (d : Bytes) where
  abbrev first_len : ℕ
  first_len = le_value (take 4 (drop 0 d))

  abbrev second_len : ℕ
  second_len = le_value (take 4 (drop 4 d))

  -- No read of `deserialize` leaves the buffer, whatever the bytes are.
  pub deserialize-ne-halt : (h : Halt) → deserialize d ≢ halt h
  unfolding deserialize
  deserialize-ne-halt h = ground (
    arith,
    read_u32_in d 0,
    read_u32_in d 4,
    read_bytes_in d 8 first_len,
    read_bytes_in d (8 + first_len) second_len,
  )

  deserialize_inv :
      (a b : Str)
      → deserialize d ≡ done (a, b)
      → (length d ≡ 8 + first_len + second_len)
        × (a ≡ take first_len (drop 8 d))
        × (b ≡ take second_len (drop (8 + first_len) d))
  unfolding deserialize
  deserialize_inv a b e = ground (
    arith,
    read_u32_in d 0,
    read_u32_in d 4,
    read_bytes_in d 8 first_len,
    read_bytes_in d (8 + first_len) second_len,
  )

  pieces :
      length d ≡ 8 + first_len + second_len
      → take 4 d
          ++ (take 4 (drop 4 d)
              ++ (take first_len (drop 8 d) ++ take second_len (drop (8 + first_len) d)))
        ≡ d
  pieces e = rw (
    take_of_le second_len (drop (8 + first_len) d) (omega (arith, length-drop (8 + first_len) d)),
    ← drop-drop 8 first_len d,
    take-append-drop first_len (drop 8 d),
    ← drop-drop 4 4 d,
    take-append-drop 4 (drop 4 d),
    take-append-drop 4 d,
  )

  -- What is accepted is the body of exactly the pair that is returned.
  pub deserialize-exact : (a b : Str) → All IsByte d → deserialize d ≡ done (a, b) → d ≡ body a b
  deserialize-exact a b bytes e = cc (
    pieces l,
    ea,
    eb,
    len_a,
    len_b,
    read_u32_bytes d 0 bytes (omega (arith, l)),
    read_u32_bytes d 4 bytes (omega (arith, l)),
  )
    where
      l : length d ≡ 8 + first_len + second_len
      l = (deserialize_inv a b e).0

      ea : a ≡ take first_len (drop 8 d)
      ea = (deserialize_inv a b e).1

      eb : b ≡ take second_len (drop (8 + first_len) d)
      eb = (deserialize_inv a b e).2

      len_a : length a % 2 ^ 32 ≡ first_len
      len_a = omega (
        arith,
        l,
        ap length ea,
        length-take first_len (drop 8 d),
        length-drop 8 d,
        read_bounded d 0 bytes (omega (arith, l)),
      )

      len_b : length b % 2 ^ 32 ≡ second_len
      len_b = omega (
        arith,
        l,
        ap length eb,
        length-take second_len (drop (8 + first_len) d),
        length-drop (8 + first_len) d,
        read_bounded d 4 bytes (omega (arith, l)),
      )
