-- ===== src/Protocol/Layout/Overflow.antt =====
-- A response whose names do not fit: `body_len` of chat262_protocol.cc wraps round.
use chat.Common.{
  ◌+◌, ◌*◌, ◌^◌, ◌≤◌, ◌≡◌, List, length, All, arith, Str, halt, out_of_bounds, length-append,
}
use chat.Endianness.{length-le_bytes}
use chat.Protocol.Header.{MessageType, in_block}
use chat.Protocol.Layout.Strings.{
  sum, lengths, IsShort, length-write_lengths, length-write_strings-IsShort,
}
use chat.Protocol.Layout.Names.{body, body_len, message, serialize}

module _ (names : List Str) (short : All IsShort names) where
  length-body : length (body 0 names) ≡ 8 + 4 * length names + sum (lengths names)
  unfolding body
  length-body = grind (
    arith,
    length-append,
    length-le_bytes,
    length-write_lengths,
    length-write_strings-IsShort names short,
  )

  -- If names that are each shorter than 2 ^ 32 bytes make a body of 2 ^ 32 bytes or more, `serialize`
  -- of a response that lists them with status OK writes past the end of the block that it has
  -- allocated.
  pub serialize-overflow :
      (t : MessageType)
      → 2 ^ 32 ≤ 8 + 4 * length names + sum (lengths names)
      → serialize t 0 names ≡ halt out_of_bounds
  unfolding serialize in_block message body_len
  serialize-overflow t large = ground (arith, length-body)
