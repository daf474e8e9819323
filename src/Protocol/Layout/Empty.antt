-- ===== src/Protocol/Layout/Empty.antt =====
-- No body: the logout, correspondents and delete requests, and two special responses.
use chat.Common.{
  ◌≡◌, ◌≢◌, not, [], ◌∷◌, length, arith, nat_eq, if◌then◌else◌, Outcome, done, fail, halt, Halt,
  body_error,
}
use chat.Endianness.{e_htole16, e_htole32}
use chat.Buffer.{Bytes}
use chat.Protocol.Header.{version, MessageType, msgtype, Message}

unfoldable pub serialize : MessageType → Message
serialize type = record {
  hdr_ = record {
    version_ = e_htole16 version;
    type_ = e_htole16 (msgtype type);
    body_len_ = e_htole32 0;
  };
  body_ = [];
}

unfoldable pub deserialize : Bytes → Outcome (Unit {0})
deserialize d = if not (nat_eq (length d) 0) then fail body_error else done tt

pub deserialize-exact : (d : Bytes) → deserialize d ≡ done tt → d ≡ []
unfolding deserialize
deserialize-exact [] e = ground arith
deserialize-exact (x ∷ d) e = ground arith

pub deserialize-ne-halt : (d : Bytes) (h : Halt) → deserialize d ≢ halt h
unfolding deserialize
deserialize-ne-halt d h = ground arith
