-- ===== src/Protocol/Layout/Names.antt =====
-- A status code and, if it is OK, a list of names: the accounts and correspondents responses.
use chat.Common.{
  ℕ, ◌+◌, ◌*◌, ◌%◌, ◌^◌, ◌<◌, ◌≡◌, ◌≢◌, refl, sym, ap, ◌∙◌, not, List, [], ◌++◌, length, take, drop,
  arith, ltb, nat_eq, if◌then◌else◌, Str, Outcome, done, fail, halt, Halt, body_error, ◌>>=◌,
  append_assoc, append-nil, length-append,
}
use chat.Endianness.{IsU32, e_htole16, e_htole32, le_bytes, le_value, length-le_bytes}
use chat.Buffer.{Bytes, read_u32, read_u32_at, read_u32_in}
use chat.Protocol.Header.{
  version, MessageType, msgtype, Message, status_code, ok, in_block, in_block-IsWellSized,
}
use chat.Protocol.Layout.Strings.{
  sum, lengths, write_lengths, write_strings, read_lengths, read_strings, read_lengths_at,
  read_strings_at, length-write_lengths, length-write_strings, lengths_at, read_lengths_in,
  read_strings_in,
}

-- `body_len`, a `uint32_t`
unfoldable pub body_len : ℕ → List Str → ℕ
body_len stat_code names =
    if nat_eq stat_code (status_code ok)
    then (4 + (4 + length names * 4) + sum (lengths names)) % 2 ^ 32
    else 4

unfoldable pub body : ℕ → List Str → Bytes
body stat_code names =
    le_bytes 4 (e_htole32 stat_code)
    ++ (if nat_eq stat_code (status_code ok)
        then le_bytes 4 (e_htole32 (length names % 2 ^ 32))
          ++ (write_lengths names ++ write_strings names)
        else [])

-- What is written behind the header, and the length that the header tells.
unfoldable pub message : MessageType → ℕ → List Str → Message
message type stat_code names = record {
  hdr_ = record {
    version_ = e_htole16 version;
    type_ = e_htole16 (msgtype type);
    body_len_ = e_htole32 (body_len stat_code names);
  };
  body_ = body stat_code names;
}

unfoldable pub serialize : MessageType → ℕ → List Str → Outcome Message
unfolding message
serialize type stat_code names = in_block (message type stat_code names)

-- The part behind an OK status code.
unfoldable pub deserialize_names : Bytes → ℕ → Outcome (ℕ × List Str)
deserialize_names d stat_code = if ltb (length d) (2 * 4) then fail body_error else do
  n ← read_u32 d 4
  if ltb (length d) (2 * 4 + n * 4) then fail body_error else do
    lens ← read_lengths d n 8 0
    if not (nat_eq (length d) (2 * 4 + n * 4 + lens.1))
        then fail body_error
        else do names ← read_strings d lens.0 (8 + n * 4); done (stat_code, names)

-- The last argument is the vector that the caller passes in: another status leaves it alone.
unfoldable pub deserialize : Bytes → List Str → Outcome (ℕ × List Str)
unfolding deserialize_names
deserialize d names = if ltb (length d) 4 then fail body_error else do
  stat_code ← read_u32 d 0
  if not (nat_eq stat_code (status_code ok))
      then done (stat_code, names)
      else deserialize_names d stat_code

module _ (names : List Str) (fits : 8 + 4 * length names + sum (lengths names) < 2 ^ 32) where
  count_bytes : Bytes
  count_bytes = le_bytes 4 (length names % 2 ^ 32)

  pub length-body_ok : length (body 0 names) ≡ 8 + 4 * length names + sum (lengths names)
  unfolding body
  length-body_ok = grind (
    arith,
    length-append,
    length-le_bytes,
    length-write_lengths,
    length-write_strings names (omega (arith, fits)),
  )

  read_status : read_u32 (body 0 names) 0 ≡ done 0
  unfolding body
  read_status = read_u32_at [] 0 _ refl refl (omega arith)

  read_count : read_u32 (body 0 names) 4 ≡ done (length names)
  unfolding body
  read_count =
      read_u32_at (le_bytes 4 0) (length names % 2 ^ 32) _ refl (sym (length-le_bytes 4 _))
        (omega arith)
      ∙ ap done (omega arith)

  read_lens :
      read_lengths (body 0 names) (length names) 8 0 ≡ done (lengths names, sum (lengths names))
  unfolding body
  read_lens =
      read_lengths_at (le_bytes 4 0 ++ le_bytes 4 (length names % 2 ^ 32)) names
        (write_strings names) _ 8 0 (simp append_assoc)
        (grind (arith, length-append, length-le_bytes)) (omega arith)
      ∙ ap done (ap (λ (t : ℕ). (lengths names, t)) (omega arith))

  read_names : read_strings (body 0 names) (lengths names) (8 + length names * 4) ≡ done names
  unfolding body
  read_names =
      read_strings_at (le_bytes 4 0 ++ le_bytes 4 (length names % 2 ^ 32) ++ write_lengths names)
        names [] _ _ (simp (append_assoc, append-nil))
        (grind (arith, length-append, length-le_bytes, length-write_lengths)) (omega (arith, fits))

  pub serialize-fits : (t : MessageType) → serialize t 0 names ≡ done (message t 0 names)
  unfolding serialize body_len
  serialize-fits t = in_block-IsWellSized (message t 0 names) (ground (arith, length-body_ok))

  pub deserialize-body_ok : (old : List Str) → deserialize (body 0 names) old ≡ done (0, names)
  unfolding deserialize
  deserialize-body_ok old =
      ground (arith, length-body_ok, read_status, read_count, read_lens, read_names)

pub length-body_other : (c : ℕ) (us : List Str) → c ≢ 0 → length (body c us) ≡ 4
unfolding body
length-body_other c us other = ground (arith, length-le_bytes 4 c, append-nil (le_bytes 4 c))

pub serialize-other :
    (t : MessageType) (c : ℕ) (names : List Str)
    → c ≢ 0
    → serialize t c names ≡ done (message t c names)
unfolding serialize body_len
serialize-other t c names other =
    in_block-IsWellSized (message t c names) (ground (arith, length-body_other c names other))

-- With another status the names are neither written nor read.
pub deserialize-body_other :
    (c : ℕ) (names old : List Str)
    → IsU32 c
    → c ≢ 0
    → deserialize (body c names) old ≡ done (c, old)
unfolding deserialize body
deserialize-body_other c names old h other = ground (
  arith,
  length-le_bytes 4 c,
  read_u32_at [] c [] {d = le_bytes 4 c} {off = 0} (simp append-nil) refl h,
  append-nil (le_bytes 4 c),
)

module _ (d : Bytes) where
  -- The count and the lengths that the buffer announces.
  abbrev pub count_at : ℕ
  count_at = le_value (take 4 (drop 4 d))

  abbrev pub announced : List ℕ
  announced = lengths_at d count_at 8

  -- Where the announced lengths add up to less than 2 ^ 32, so that `total_u_len` does not wrap round,
  -- no read leaves the buffer.
  pub deserialize-ne-halt :
      (old : List Str) (h : Halt) → sum announced < 2 ^ 32 → deserialize d old ≢ halt h
  unfolding deserialize
  deserialize-ne-halt old h small = ground (
    arith,
    read_u32_in d 0,
    read_u32_in d 4,
    read_lengths_in d count_at 8 0,
    read_strings_in d announced (8 + count_at * 4),
  )
