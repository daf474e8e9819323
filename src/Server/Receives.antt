-- ===== src/Server/Receives.antt =====
-- `recv_hdr` and `recv_body`, which share their loop.
use chat.Common.{ℕ, ◌+◌, ◌<◌, ◌≡◌, List, [], ◌∷◌, ◌++◌, length, drop, arith, Status, done}
use chat.Buffer.{Bytes, zeros}
use chat.Server.Transport.{RecvResult, received, failed, closed, World, recv_loop}
use chat.Server.Connection.{recv_body}

pub recv_loop_end :
    (rs : List RecvResult) (len total_read : ℕ) (buffer : Bytes)
    → total_read ≡ len
    → recv_loop rs len total_read buffer ≡ done (Status.ok, rs, buffer)
unfolding recv_loop
recv_loop_end [] len total_read buffer e = ground arith
recv_loop_end (failed ∷ rs) len total_read buffer e = ground arith
recv_loop_end (closed ∷ rs) len total_read buffer e = ground arith
recv_loop_end (received c ∷ rs) len total_read buffer e = ground arith

-- If a body arrives in two parts, neither of them empty, the status is OK, and the bytes returned
-- start with the second part, which has been stored over the first.
pub recv_body_in_parts :
    (a b : Bytes) (rs : List RecvResult) (w : World)
    → 0 < length a
    → 0 < length b
    → w.recvs ≡ received a ∷ (received b ∷ rs)
    → recv_body (length a + length b) w
      ≡ done (
        Status.ok,
        b ++ drop (length b) (a ++ drop (length a) (zeros (length a + length b))),
        record w { recvs = rs },
      )
unfolding recv_body recv_loop
recv_body_in_parts a b rs w some_a some_b e = rw e (
    ground (
      arith,
      recv_loop_end rs (length a + length b) (0 + length a + length b)
          (b ++ drop (length b) (a ++ drop (length a) (zeros (length a + length b)))),
    ))
