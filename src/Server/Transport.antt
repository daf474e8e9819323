-- ===== src/Server/Transport.antt =====
-- `server::send_msg`, `server::recv_hdr` and `server::recv_body`, over what the socket's calls return.
use chat.Common.{
  ℕ, ◌+◌, List, [], ◌∷◌, ◌++◌, length, take, drop, nat_eq, if◌then◌else◌, Status, Outcome, done,
  halt, waiting, ◌>>=◌,
}
use chat.Endianness.{e_le32toh}
use chat.Buffer.{Bytes}
use chat.Protocol.Header.{Message, header_size, message_bytes}
use chat.Database.{Database}

-- What a call of `send` returns: how many bytes it took, or a negative number.
pub data SendResult : Type 0 where
  accepted : ℕ → SendResult
  refused : SendResult

-- What a call of `recv` does: it stores bytes, or returns a negative number, or 0.
pub data RecvResult : Type 0 where
  received : Bytes → RecvResult
  failed closed : RecvResult

-- A connection's thread and what it works on: the database, what the socket's calls will return, and
-- the bytes that were sent.
pub record World : Type 0 where
  pub database_ : Database
  pub sends : List SendResult
  pub recvs : List RecvResult
  pub wire : Bytes

-- The loop of `send_msg`. Every call is given the message from its first byte on.
unfoldable pub send_loop :
    List SendResult → Bytes → ℕ → ℕ → Bytes → Outcome (Status × List SendResult × Bytes)
send_loop [] msg total_len total_sent wire =
    if nat_eq total_sent total_len then done (Status.ok, [], wire) else halt waiting
send_loop (refused ∷ rs) msg total_len total_sent wire =
    if nat_eq total_sent total_len
    then done (Status.ok, refused ∷ rs, wire)
    else done (Status.send_error, rs, wire)
send_loop (accepted n ∷ rs) msg total_len total_sent wire =
    let rest = send_loop rs msg total_len (total_sent + n) (wire ++ take n msg) in
    if nat_eq total_sent total_len then done (Status.ok, accepted n ∷ rs, wire) else rest

unfoldable pub send_msg : Message → World → Outcome (Status × World)
unfolding send_loop
send_msg msg w = do
  r ← send_loop w.sends (message_bytes msg) (header_size + e_le32toh msg.hdr_.body_len_) 0 w.wire
  done (r.0, record w { sends = r.1; wire = r.2 })

-- The loops of `recv_hdr` and `recv_body`. Every call stores at the start of the buffer.
unfoldable pub recv_loop :
    List RecvResult → ℕ → ℕ → Bytes → Outcome (Status × List RecvResult × Bytes)
recv_loop [] len total_read buffer =
    if nat_eq total_read len then done (Status.ok, [], buffer) else halt waiting
recv_loop (failed ∷ rs) len total_read buffer =
    if nat_eq total_read len
    then done (Status.ok, failed ∷ rs, buffer)
    else done (Status.receive_error, rs, buffer)
recv_loop (closed ∷ rs) len total_read buffer =
    if nat_eq total_read len
    then done (Status.ok, closed ∷ rs, buffer)
    else done (Status.closed_connection, rs, buffer)
recv_loop (received chunk ∷ rs) len total_read buffer =
    let rest = recv_loop rs len (total_read + length chunk) (chunk ++ drop (length chunk) buffer) in
    if nat_eq total_read len then done (Status.ok, received chunk ∷ rs, buffer) else rest
