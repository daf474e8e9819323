-- ===== src/Client.antt =====
-- src/client/client.cc: the requests of the client, each with its reply. An early return of a status
-- other than OK is `fail`.
pub mod Replies
pub mod Sound
pub mod Answers
pub mod Served
pub mod Round
pub mod Connect
pub mod Main
use chat.Common.{
  ℕ, zero, suc, ◌+◌, Bool, not, ◌||◌, List, [], ◌∷◌, ◌++◌, length, nat_eq, if◌then◌else◌, Str,
  Status, Outcome, done, fail, ◌>>=◌,
}
use chat.Buffer.{Bytes, zeros}
use chat.Chat.{Chat}
use chat.Endianness.{e_le32toh}
use chat.Protocol.Header.{
  version, MessageType, msgtype, MessageHeader, Message, header_size, message_bytes,
  deserialize_header,
}
use chat.Protocol.RegistrationRequest
use chat.Protocol.RegistrationResponse
use chat.Protocol.LoginRequest
use chat.Protocol.LoginResponse
use chat.Protocol.LogoutRequest
use chat.Protocol.LogoutResponse
use chat.Protocol.AccountsRequest
use chat.Protocol.AccountsResponse
use chat.Protocol.SendTxtRequest
use chat.Protocol.SendTxtResponse
use chat.Protocol.RecvTxtRequest
use chat.Protocol.RecvTxtResponse
use chat.Protocol.CorrespondentsRequest
use chat.Protocol.CorrespondentsResponse
use chat.Protocol.DeleteRequest
use chat.Protocol.DeleteResponse
use chat.Server.Transport.{SendResult, RecvResult, send_loop, recv_loop}

-- The client's socket: what its calls will return, and the bytes that were sent.
pub record Client : Type 0 where
  pub sends : List SendResult
  pub recvs : List RecvResult
  pub wire : Bytes

-- `if (s != status::ok) return s;`
abbrev pub require {ℓ} : {A : Type ℓ} → Status → Outcome A → Outcome A
require Status.ok k = k
require s k = fail s

unfoldable pub send_msg : Message → Client → Outcome Client
send_msg msg c = do
  r ← send_loop c.sends (message_bytes msg) (header_size + e_le32toh msg.hdr_.body_len_) 0 c.wire
  require r.0 (done (record c { sends = r.1; wire = r.2 }))

unfoldable pub recv_hdr : Client → Outcome (MessageHeader × Client)
recv_hdr c = do
  r ← recv_loop c.recvs header_size 0 (zeros header_size)
  require r.0 (do h ← deserialize_header r.2; done (h, record c { recvs = r.1 }))

unfoldable pub recv_body : ℕ → Client → Outcome (Bytes × Client)
recv_body body_len c = do
  r ← recv_loop c.recvs body_len 0 (zeros body_len)
  require r.0 (done (r.2, record c { recvs = r.1 }))

unfoldable pub validate_hdr : MessageHeader → MessageType → Status
validate_hdr hdr expected =
    if not (nat_eq hdr.version_ version) || not (nat_eq hdr.type_ (msgtype expected))
    then Status.header_error
    else Status.ok

-- What all requests share: the body of the reply.
unfoldable pub exchange : Message → MessageType → Client → Outcome (Bytes × Client)
exchange msg expected c = do
  c1 ← send_msg msg c
  h ← recv_hdr c1
  require (validate_hdr h.0 expected) (recv_body h.0.body_len_ h.1)

unfoldable pub login : Str → Str → Client → Outcome (ℕ × Client)
unfolding exchange
login username password c = do
  r ← exchange (LoginRequest.serialize username password) MessageType.login_response c
  stat_code ← LoginResponse.deserialize r.0
  done (stat_code, r.1)

unfoldable pub registration : Str → Str → Client → Outcome (ℕ × Client)
unfolding exchange
registration username password c = do
  r ← exchange (RegistrationRequest.serialize username password) MessageType.registration_response c
  stat_code ← RegistrationResponse.deserialize r.0
  done (stat_code, r.1)

unfoldable pub logout : Client → Outcome (ℕ × Client)
unfolding exchange
logout c = do
  r ← exchange LogoutRequest.serialize MessageType.logout_response c
  stat_code ← LogoutResponse.deserialize r.0
  done (stat_code, r.1)

unfoldable pub list_accounts : Str → List Str → Client → Outcome ((ℕ × List Str) × Client)
unfolding exchange
list_accounts pattern' usernames c = do
  r ← exchange (AccountsRequest.serialize pattern') MessageType.accounts_response c
  reply ← AccountsResponse.deserialize r.0 usernames
  done (reply, r.1)

unfoldable pub send_txt : Str → Str → Client → Outcome (ℕ × Client)
unfolding exchange
send_txt recipient txt c = do
  r ← exchange (SendTxtRequest.serialize recipient txt) MessageType.send_txt_response c
  stat_code ← SendTxtResponse.deserialize r.0
  done (stat_code, r.1)

unfoldable pub recv_txt : Str → Chat → Client → Outcome ((ℕ × Chat) × Client)
unfolding exchange
recv_txt sender chat c = do
  r ← exchange (RecvTxtRequest.serialize sender) MessageType.recv_txt_response c
  reply ← RecvTxtResponse.deserialize r.0 chat
  done (reply, r.1)

unfoldable pub recv_correspondents : List Str → Client → Outcome ((ℕ × List Str) × Client)
unfolding exchange
recv_correspondents correspondents c = do
  r ← exchange CorrespondentsRequest.serialize MessageType.correspondents_response c
  reply ← CorrespondentsResponse.deserialize r.0 correspondents
  done (reply, r.1)

unfoldable pub delete_account : Client → Outcome (ℕ × Client)
unfolding exchange
delete_account c = do
  r ← exchange DeleteRequest.serialize MessageType.delete_response c
  stat_code ← DeleteResponse.deserialize r.0
  done (stat_code, r.1)
