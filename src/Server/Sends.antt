-- ===== src/Server/Sends.antt =====
-- What `send_msg` puts on the wire.
use chat.Common.{
  ℕ, ◌+◌, ◌-◌, ◌<◌, ◌≡◌, List, [], ◌∷◌, ◌++◌, length, take, arith, Status, done, length-append,
  take_of_le,
}
use chat.Endianness.{e_le32toh}
use chat.Buffer.{Bytes}
use chat.Protocol.Header.{Message, IsWellSized, header_size, header_bytes, message_bytes}
use chat.Protocol.Header.RoundTrip.{length-header_bytes}
use chat.Server.Transport.{SendResult, accepted, refused, World, send_loop, send_msg}

pub length-message_bytes :
    (m : Message)
    → IsWellSized m
    → length (message_bytes m) ≡ header_size + e_le32toh m.hdr_.body_len_
unfolding message_bytes
length-message_bytes m h =
    omega (arith, length-append (header_bytes m.hdr_) m.body_, length-header_bytes m.hdr_)

pub send_loop_end :
    (rs : List SendResult) (msg : Bytes) (total_len total_sent : ℕ) (wire : Bytes)
    → total_sent ≡ total_len
    → send_loop rs msg total_len total_sent wire ≡ done (Status.ok, rs, wire)
unfolding send_loop
send_loop_end [] msg total_len total_sent wire e = ground arith
send_loop_end (refused ∷ rs) msg total_len total_sent wire e = ground arith
send_loop_end (accepted n ∷ rs) msg total_len total_sent wire e = ground arith

module _ (m : Message) (sized : IsWellSized m) (w : World) (rs : List SendResult) where
  -- If the first call of `send` takes all bytes of a well-sized message, the message is on the wire
  -- once, and the status is OK.
  pub send_msg_whole :
      w.sends ≡ accepted (length (message_bytes m)) ∷ rs
      → send_msg m w ≡ done (Status.ok, record w { sends = rs; wire = w.wire ++ message_bytes m })
  unfolding send_msg
  send_msg_whole e = rw e (
      ground (
        arith,
        length-message_bytes m sized,
        take_of_le (length (message_bytes m)) (message_bytes m),
        send_loop_end rs (message_bytes m) (header_size + e_le32toh m.hdr_.body_len_)
            (0 + length (message_bytes m))
            (w.wire ++ take (length (message_bytes m)) (message_bytes m)),
      ))

  -- If the first call takes only `n` bytes of a well-sized message, more than none and less than all,
  -- and the second call takes as many bytes as are missing, the status is OK,
  -- and the wire has the first `n` bytes followed by the message's first bytes once more.
  pub send_msg_partial :
      (n : ℕ)
      → n < length (message_bytes m)
      → 0 < n
      → w.sends ≡ accepted n ∷ (accepted (length (message_bytes m) - n) ∷ rs)
      → send_msg m w
        ≡ done (
          Status.ok,
          record w {
            sends = rs;
            wire =
                (w.wire ++ take n (message_bytes m))
                ++ take (length (message_bytes m) - n) (message_bytes m);
          },
        )
  unfolding send_msg
  send_msg_partial n short some_sent e = rw e (
      ground (
        arith,
        length-message_bytes m sized,
        send_loop_end rs (message_bytes m) (header_size + e_le32toh m.hdr_.body_len_)
            (0 + n + (length (message_bytes m) - n))
            ((w.wire ++ take n (message_bytes m))
              ++ take (length (message_bytes m) - n) (message_bytes m)),
      ))
