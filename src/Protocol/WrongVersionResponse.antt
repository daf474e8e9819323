-- ===== src/Protocol/WrongVersionResponse.antt =====
-- `chat262::wrong_version_response`
use chat.Common.{
  ℕ, ◌<◌, ◌^◌, ◌≡◌, ◌≢◌, refl, not, [], length, nat_eq, if◌then◌else◌, Outcome, done, fail, halt,
  Halt, body_error, ◌>>=◌, arith, append-nil, sym,
}
use chat.Endianness.{
  e_htole16, e_htole32, e_le16toh, le_bytes, le_value, length-le_bytes, le_value-le_bytes,
}
use chat.Buffer.{Bytes, read_bytes, read_bytes_at, read_bytes_in}
use chat.Protocol.Header.{version, msgtype, wrong_version_response, Message}

unfoldable pub serialize : ℕ → Message
serialize correct_version = record {
  hdr_ = record {
    version_ = e_htole16 version;
    type_ = e_htole16 (msgtype wrong_version_response);
    body_len_ = e_htole32 2;
  };
  body_ = le_bytes 2 (e_htole16 correct_version);
}

unfoldable pub deserialize : Bytes → Outcome ℕ
deserialize d =
    if not (nat_eq (length d) 2)
    then fail body_error
    else do v ← read_bytes d 0 2; done (e_le16toh (le_value v))

pub deserialize-serialize : (v : ℕ) → v < 2 ^ 16 → deserialize (serialize v).body_ ≡ done v
unfolding deserialize serialize
deserialize-serialize v h = ground (
  arith,
  length-le_bytes 2 v,
  read_bytes_at [] (le_bytes 2 v) [] {d = le_bytes 2 v} {off = 0} {len = 2} (sym (append-nil _))
      refl (sym (length-le_bytes 2 v)),
  le_value-le_bytes 2 v h,
)

pub deserialize-ne-halt : (d : Bytes) (h : Halt) → deserialize d ≢ halt h
unfolding deserialize
deserialize-ne-halt d h = ground (arith, read_bytes_in d 0 2)
