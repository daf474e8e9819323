-- ===== src/Server/Connection.antt =====
-- `server::handle_client`: one connection, from the first header to the end.
use chat.Common.{
  ℕ, zero, suc, ◌+◌, Bool, true, false, not, Option, none, some, List, length, nat_eq,
  if◌then◌else◌, Str, Status, Outcome, done, fail, halt, out_of_fuel, ◌>>=◌,
}
use chat.Buffer.{Bytes, zeros}
use chat.Protocol.Header.{version, MessageHeader, header_size, deserialize_header}
use chat.Database
use chat.Database.{ThreadId}
use chat.Server.{is_ok, dispatch, handle_wrong_version, handle_invalid_body}
use chat.Server.Transport.{World, recv_loop}

abbrev pub header_status : World → Outcome MessageHeader → Outcome (Status × MessageHeader × World)
header_status w (done h) = done (Status.ok, h, w)
header_status w (fail s) = done (s, record { version_ = 0; type_ = 0; body_len_ = 0 }, w)
header_status w (halt h) = halt h

-- `server::recv_hdr`. The header counts only with status OK.
unfoldable pub recv_hdr : World → Outcome (Status × MessageHeader × World)
recv_hdr w = do
  r ← recv_loop w.recvs header_size 0 (zeros header_size)
  if is_ok r.0
      then header_status (record w { recvs = r.1 }) (deserialize_header r.2)
      else done (r.0, record { version_ = 0; type_ = 0; body_len_ = 0 }, record w { recvs = r.1 })

-- `server::recv_body`. The bytes count only with status OK.
unfoldable pub recv_body : ℕ → World → Outcome (Status × Bytes × World)
recv_body body_len w = do
  r ← recv_loop w.recvs body_len 0 (zeros body_len)
  done (r.0, r.2, record w { recvs = r.1 })

-- The end of a round: whether the loop goes on.
unfoldable pub conclude : Status → World → Outcome (Bool × World)
conclude Status.body_error w = do r ← handle_invalid_body w; done (is_ok r.0, r.1)
conclude s w = done (is_ok s, w)

-- A handler that returns early did so before it changed anything.
unfoldable pub after_handler : World → Outcome (Status × World) → Outcome (Bool × World)
after_handler w (done r) = conclude r.0 r.1
after_handler w (fail s) = conclude s w
after_handler w (halt h) = halt h

-- One round of the `while` loop.
unfoldable pub round : (List Str → List Str) → ThreadId → World → Outcome (Bool × World)
round order t w = do
  h ← recv_hdr w
  if not (is_ok h.0)
      then done (false, h.2)
      else if not (nat_eq h.1.version_ version)
      then (do r ← handle_wrong_version h.2; done (false, r.1))
      else (do
        b ← recv_body h.1.body_len_ h.2
        if not (is_ok b.0)
            then done (false, b.2)
            else after_handler b.2 (dispatch order t h.1.type_ b.1 b.2))

-- The `while` loop, one round on each unit of fuel.
unfoldable pub serve : ℕ → (List Str → List Str) → ThreadId → World → Outcome World
serve zero order t w = halt out_of_fuel
serve (suc f) order t w = do
  r ← round order t w
  elim r.0 [ true ↦ serve f order t r.1 | false ↦ done r.1 ]

-- A connection that was accepted, and whose address is read. Every round takes at least one of the
-- socket's events, so that the fuel is never used up. At the end the thread is logged out.
unfoldable pub converse : (List Str → List Str) → ThreadId → World → Outcome World
converse order t w = do
  w' ← serve (length w.recvs + 1) order t w
  done (record w' { database_ = (Database.logout t w'.database_).1 })

-- `client_fd` is the result of `accept`, and `client_ip` that of `inet_ntop`; where either failed, the
-- thread returns early, with no logout.
unfoldable pub handle_client :
    (List Str → List Str) → ThreadId → Option ℕ → Option Str → World → Outcome World
unfolding converse
handle_client order t none client_ip w = done w
handle_client order t (some client_fd) none w = done w
handle_client order t (some client_fd) (some client_ip) w = converse order t w
