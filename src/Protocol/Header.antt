-- ===== src/Protocol/Header.antt =====
-- Constants, the message header and the message.
pub mod RoundTrip
use chat.Common.{
  ℕ, ◌+◌, ◌≡◌, Bool, not, List, ◌++◌, length, arith, ltb, nat_eq, if◌then◌else◌, Outcome, done,
  fail, halt, out_of_bounds, body_error, ◌>>=◌,
}
use chat.Endianness.{e_le16toh, e_le32toh, le_bytes, le_value}
use chat.Buffer.{Bytes, read_bytes}

abbrev pub port : ℕ
port = 61079

abbrev pub version : ℕ
version = 1

-- `enum message_type : uint16_t`
pub data MessageType : Type 0 where
  registration_request login_request logout_request accounts_request : MessageType
  send_txt_request recv_txt_request correspondents_request delete_request : MessageType
  registration_response login_response logout_response accounts_response : MessageType
  send_txt_response recv_txt_response correspondents_response delete_response : MessageType
  wrong_version_response invalid_type_response invalid_body_response : MessageType

abbrev pub msgtype : MessageType → ℕ
msgtype registration_request = 101
msgtype login_request = 102
msgtype logout_request = 103
msgtype accounts_request = 104
msgtype send_txt_request = 105
msgtype recv_txt_request = 106
msgtype correspondents_request = 107
msgtype delete_request = 108
msgtype registration_response = 201
msgtype login_response = 202
msgtype logout_response = 203
msgtype accounts_response = 204
msgtype send_txt_response = 205
msgtype recv_txt_response = 206
msgtype correspondents_response = 207
msgtype delete_response = 208
msgtype wrong_version_response = 301
msgtype invalid_type_response = 302
msgtype invalid_body_response = 303

-- `enum status_code : uint32_t`
pub data StatusCode : Type 0 where
  ok invalid_credentials user_exists user_noexist : StatusCode
  username_invalid password_invalid unauthorized : StatusCode

abbrev pub status_code : StatusCode → ℕ
status_code ok = 0
status_code invalid_credentials = 1
status_code user_exists = 2
status_code user_noexist = 3
status_code username_invalid = 4
status_code password_invalid = 5
status_code unauthorized = 6

-- `struct message_header`, its fields in the host's byte order
pub record MessageHeader : Type 0 where
  pub version_ : ℕ
  pub type_ : ℕ
  pub body_len_ : ℕ

abbrev pub header_size : ℕ
header_size = 8

-- `struct message`: the header as it lies in memory, and the bytes written behind it
pub record Message : Type 0 where
  pub hdr_ : MessageHeader
  pub body_ : Bytes

-- `message_header::deserialize`
unfoldable pub deserialize_header : Bytes → Outcome MessageHeader
deserialize_header d = if not (nat_eq (length d) header_size) then fail body_error else do
  v ← read_bytes d 0 2
  t ← read_bytes d 2 2
  l ← read_bytes d 4 4
  done (record {
    version_ = e_le16toh (le_value v);
    type_ = e_le16toh (le_value t);
    body_len_ = e_le32toh (le_value l);
  })

-- The memory of a header.
unfoldable pub header_bytes : MessageHeader → Bytes
header_bytes h = le_bytes 2 h.version_ ++ (le_bytes 2 h.type_ ++ le_bytes 4 h.body_len_)

-- The memory of a message, which is what `send` reads.
unfoldable pub message_bytes : Message → Bytes
unfolding header_bytes
message_bytes m = header_bytes m.hdr_ ++ m.body_

-- What was written behind the header is as long as the header says, so that it fills the
-- allocated block exactly.
abbrev pub IsWellSized : Message → Type 0
IsWellSized m = length m.body_ ≡ e_le32toh m.hdr_.body_len_

-- `serialize` allocates a block of `sizeof(message_header) + body_len` bytes and copies into it. Where
-- `body_len`, a `uint32_t`, has wrapped round, it can copy past the end of the block.
unfoldable pub in_block : Message → Outcome Message
in_block m =
    if ltb (e_le32toh m.hdr_.body_len_) (length m.body_) then halt out_of_bounds else done m

pub in_block-IsWellSized : (m : Message) → IsWellSized m → in_block m ≡ done m
unfolding in_block
in_block-IsWellSized m h = ground arith
