-- ===== src/Protocol/Header/RoundTrip.antt =====
-- `message_header::deserialize` on the memory of a header, and on any other bytes.
use chat.Common.{
  ◌<◌, ◌^◌, ◌≡◌, ◌≢◌, refl, sym, [], ◌++◌, length, arith, done, halt, Halt, length-append,
  append-nil, append_assoc,
}
use chat.Endianness.{le_bytes, length-le_bytes, le_value-le_bytes}
use chat.Buffer.{Bytes, read_bytes, read_bytes_at, read_bytes_in}
use chat.Protocol.Header.{MessageHeader, header_bytes, deserialize_header}

-- The fields of a header fit their integer types.
pub record InRange (h : MessageHeader) : Type 0 where
  pub version_fits : h.version_ < 2 ^ 16
  pub type_fits : h.type_ < 2 ^ 16
  pub body_len_fits : h.body_len_ < 2 ^ 32

pub length-header_bytes : (h : MessageHeader) → length (header_bytes h) ≡ 8
unfolding header_bytes
length-header_bytes h = grind (arith, length-append, length-le_bytes)

module _ (h : MessageHeader) (r : InRange h) where
  read_version : read_bytes (header_bytes h) 0 2 ≡ done (le_bytes 2 h.version_)
  unfolding header_bytes
  read_version = read_bytes_at [] (le_bytes 2 h.version_) _ refl refl (sym (length-le_bytes 2 _))

  read_type : read_bytes (header_bytes h) 2 2 ≡ done (le_bytes 2 h.type_)
  unfolding header_bytes
  read_type =
      read_bytes_at (le_bytes 2 h.version_) (le_bytes 2 h.type_) _ refl (sym (length-le_bytes 2 _))
        (sym (length-le_bytes 2 _))

  read_body_len : read_bytes (header_bytes h) 4 4 ≡ done (le_bytes 4 h.body_len_)
  unfolding header_bytes
  read_body_len =
      read_bytes_at (le_bytes 2 h.version_ ++ le_bytes 2 h.type_) (le_bytes 4 h.body_len_) []
        (simp (append_assoc, append-nil)) (grind (arith, length-append, length-le_bytes))
        (sym (length-le_bytes 4 _))

  -- A header whose fields fit their integer types is read back from its own memory.
  pub deserialize_header-header_bytes : deserialize_header (header_bytes h) ≡ done h
  unfolding deserialize_header
  deserialize_header-header_bytes = ground (
    arith,
    length-header_bytes h,
    read_version,
    read_type,
    read_body_len,
    le_value-le_bytes 2 h.version_ r.version_fits,
    le_value-le_bytes 2 h.type_ r.type_fits,
    le_value-le_bytes 4 h.body_len_ r.body_len_fits,
  )

pub deserialize_header-ne-halt : (d : Bytes) (h : Halt) → deserialize_header d ≢ halt h
unfolding deserialize_header
deserialize_header-ne-halt d h =
    ground (arith, read_bytes_in d 0 2, read_bytes_in d 2 2, read_bytes_in d 4 4)
