-- ===== src/Protocol/Layout/Code.antt =====
-- One integer: the bodies of the responses that carry a status code alone.
use chat.Common.{
  ℕ, ◌≡◌, ◌≢◌, refl, not, [], length, take, drop, All, arith, nat_eq, if◌then◌else◌, Outcome, done,
  fail, halt, Halt, body_error, append-nil, take_of_le,
}
use chat.Endianness.{IsByte, IsU32, e_htole16, e_htole32, le_bytes, le_value, length-le_bytes}
use chat.Buffer.{Bytes, read_u32, read_u32_at, read_u32_in, read_u32_bytes}
use chat.Protocol.Header.{version, MessageType, msgtype, Message}

abbrev pub body : ℕ → Bytes
body stat_code = le_bytes 4 (e_htole32 stat_code)

unfoldable pub serialize : MessageType → ℕ → Message
serialize type stat_code = record {
  hdr_ = record {
    version_ = e_htole16 version;
    type_ = e_htole16 (msgtype type);
    body_len_ = e_htole32 4;
  };
  body_ = body stat_code;
}

unfoldable pub deserialize : Bytes → Outcome ℕ
deserialize d = if not (nat_eq (length d) 4) then fail body_error else read_u32 d 0

pub deserialize-body : (c : ℕ) → IsU32 c → deserialize (body c) ≡ done c
unfolding deserialize
deserialize-body c h = ground (
  arith,
  length-le_bytes 4 c,
  read_u32_at [] c [] {d = body c} {off = 0} (simp append-nil) refl h,
)

pub deserialize-ne-halt : (d : Bytes) (h : Halt) → deserialize d ≢ halt h
unfolding deserialize
deserialize-ne-halt d h = ground (arith, read_u32_in d 0)

pub deserialize-exact : (d : Bytes) (c : ℕ) → All IsByte d → deserialize d ≡ done c → d ≡ body c
deserialize-exact d c bytes e =
    cc (take_of_le 4 d (omega (arith, inv)), inv.1, read_u32_bytes d 0 bytes (omega (arith, inv)))
  where
    inv : (length d ≡ 4) × (c ≡ le_value (take 4 (drop 0 d)))
    inv = unfold deserialize in ground (arith, read_u32_in d 0)
