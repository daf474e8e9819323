-- ===== src/Client/Replies.antt =====
-- What a request of the client returns, if the sockets deliver the request and its reply whole.
use chat.Common.{
  ℕ, zero, suc, ◌+◌, ◌<◌, ◌≡◌, refl, ap, List, ◌∷◌, ◌++◌, length, drop, take, arith, Status, done,
  take_of_le, append-nil, drop_of_le,
}
use chat.Endianness.{e_le32toh}
use chat.Buffer.{Bytes, zeros}
use chat.Protocol.Header.{
  version, Message, MessageType, msgtype, IsWellSized, header_size, header_bytes, message_bytes,
}
use chat.Protocol.Header.RoundTrip.{InRange, length-header_bytes, deserialize_header-header_bytes}
use chat.Server.Transport.{SendResult, RecvResult, accepted, received, send_loop, recv_loop}
use chat.Server.Receives.{recv_loop_end}
use chat.Server.Sends.{send_loop_end, length-message_bytes}
use chat.Client.{Client, send_msg, recv_hdr, recv_body, validate_hdr, exchange}

length-zeros : (n : ℕ) → length (zeros n) ≡ n
length-zeros zero = refl
length-zeros (suc n) = ap suc (length-zeros n)

pub recv_loop_whole :
    (chunk : Bytes) (rs : List RecvResult) (len : ℕ)
    → len ≡ length chunk
    → 0 < len
    → recv_loop (received chunk ∷ rs) len 0 (zeros len) ≡ done (Status.ok, rs, chunk)
unfolding recv_loop
recv_loop_whole chunk rs len e pos = ground (
  arith,
  recv_loop_end rs len (0 + length chunk) (chunk ++ drop (length chunk) (zeros len)),
  drop_of_le (length chunk) (zeros len),
  length-zeros len,
  append-nil chunk,
)

-- A request that was sent whole, and a reply of the expected type that arrives whole.
module _ (msg : Message) (msg_sized : IsWellSized msg) (reply : Message)
    (reply_sized : IsWellSized reply) (in_range : InRange reply.hdr_)
    (same_version : reply.hdr_.version_ ≡ version) (expected : MessageType)
    (same_type : reply.hdr_.type_ ≡ msgtype expected) (some_body : 0 < length reply.body_)
    (c : Client) (ss : List SendResult) (rs : List RecvResult)
    (all_sent : c.sends ≡ accepted (length (message_bytes msg)) ∷ ss)
    (arrives : c.recvs ≡ received (header_bytes reply.hdr_) ∷ (received reply.body_ ∷ rs)) where
  abbrev pub sent_whole : Client
  sent_whole = record c { sends = ss; wire = c.wire ++ message_bytes msg }

  sent_msg_whole : send_msg msg c ≡ done sent_whole
  unfolding send_msg send_loop
  sent_msg_whole = rw all_sent (
      ground (
        arith,
        length-message_bytes msg msg_sized,
        take_of_le (length (message_bytes msg)) (message_bytes msg),
        send_loop_end ss (message_bytes msg) (header_size + e_le32toh msg.hdr_.body_len_)
            (0 + length (message_bytes msg))
            (c.wire ++ take (length (message_bytes msg)) (message_bytes msg)),
      ))

  recv_hdr_whole :
      recv_hdr sent_whole
      ≡ done (reply.hdr_, record sent_whole { recvs = received reply.body_ ∷ rs })
  unfolding recv_hdr
  recv_hdr_whole = rw arrives (
      ground (
        arith,
        recv_loop_whole (header_bytes reply.hdr_) (received reply.body_ ∷ rs) header_size,
        length-header_bytes reply.hdr_,
        deserialize_header-header_bytes reply.hdr_ in_range,
      ))

  recv_body_whole :
      recv_body reply.hdr_.body_len_ (record sent_whole { recvs = received reply.body_ ∷ rs })
      ≡ done (reply.body_, record sent_whole { recvs = rs })
  unfolding recv_body
  recv_body_whole = ground (arith, recv_loop_whole reply.body_ rs reply.hdr_.body_len_)

  validated : validate_hdr reply.hdr_ expected ≡ Status.ok
  unfolding validate_hdr
  validated = ground arith

  -- If one call of `send` takes the request, and a well-sized reply of this version, of the expected
  -- type and with a body arrives in one call for the header and one for the body, the exchange
  -- returns the reply's body, and has put the request on the wire once.
  pub exchange_whole :
      exchange msg expected c ≡ done (reply.body_, record sent_whole { recvs = rs })
  unfolding exchange
  exchange_whole = ground (arith, sent_msg_whole, recv_hdr_whole, recv_body_whole, validated)
