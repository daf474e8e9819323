-- ===== src/Server.antt =====
-- src/server/server.cc: the handlers of the requests. Here a handler runs with no method of another
-- thread between the database methods that it calls.
pub mod Transport
pub mod Sends
pub mod Effects
pub mod Connection
pub mod Receives
pub mod Session
pub mod Termination
pub mod Access
pub mod Listing
pub mod Halts
pub mod Fuel
pub mod Faults
pub mod Service
pub mod Interleaving
pub mod Threads
pub mod Startup
use Transport.{World, send_msg}
use chat.Common.{
  ℕ, Bool, true, false, ◌||◌, not, List, [], ◌∷◌, length, ltb, nat_eq, if◌then◌else◌, Str, Status,
  Outcome, done, fail, ◌>>=◌,
}
use chat.Buffer.{Bytes}
use chat.Chat.{Chat}
use chat.Protocol.Header.{version, StatusCode, status_code, MessageType, msgtype, Message}
use chat.Protocol.RegistrationRequest
use chat.Protocol.RegistrationResponse
use chat.Protocol.LoginRequest
use chat.Protocol.LoginResponse
use chat.Protocol.LogoutRequest
use chat.Protocol.LogoutResponse
use chat.Protocol.AccountsRequest
use chat.Protocol.AccountsResponse
use chat.Protocol.SendTxtRequest
use chat.Protocol.SendTxtResponse
use chat.Protocol.RecvTxtRequest
use chat.Protocol.RecvTxtResponse
use chat.Protocol.CorrespondentsRequest
use chat.Protocol.CorrespondentsResponse
use chat.Protocol.DeleteRequest
use chat.Protocol.DeleteResponse
use chat.Protocol.WrongVersionResponse
use chat.Protocol.InvalidTypeResponse
use chat.Protocol.InvalidBodyResponse
use chat.Database
use chat.Database.{ThreadId}

abbrev pub is_ok : Status → Bool
is_ok Status.ok = true
is_ok s = false

-- `find_first_of("* ") != npos`
unfoldable pub has_star_or_space : Str → Bool
has_star_or_space [] = false
has_star_or_space (c ∷ s) = if nat_eq c b'*' || nat_eq c b' ' then true else has_star_or_space s

unfoldable pub username_refused : Str → Bool
username_refused u = ltb (length u) 4 || ltb 40 (length u) || has_star_or_space u

unfoldable pub password_refused : Str → Bool
password_refused p = ltb (length p) 4 || ltb 60 (length p)

unfoldable pub handle_registration : Bytes → World → Outcome (Status × World)
handle_registration body w = do
  request ← RegistrationRequest.deserialize body
  let username = request.0
  let password = request.1
  if username_refused username
      then send_msg (RegistrationResponse.serialize (status_code StatusCode.username_invalid)) w
      else if password_refused password
      then send_msg (RegistrationResponse.serialize (status_code StatusCode.password_invalid)) w
      else let r = Database.registration username password w.database_ in
        send_msg
          (RegistrationResponse.serialize
            (status_code (if is_ok r.0 then StatusCode.ok else StatusCode.user_exists)))
          (record w { database_ = r.1 })

-- A thread that is logged in is logged out first, also where the new login fails.
unfoldable pub handle_login : ThreadId → Bytes → World → Outcome (Status × World)
handle_login t body w = do
  request ← LoginRequest.deserialize body
  let db =
      if Database.is_logged_in t w.database_ then (Database.logout t w.database_).1 else w.database_
  let r = Database.login t request.0 request.1 db
  send_msg
      (LoginResponse.serialize
        (status_code (if is_ok r.0 then StatusCode.ok else StatusCode.invalid_credentials)))
      (record w { database_ = r.1 })

unfoldable pub handle_logout : ThreadId → Bytes → World → Outcome (Status × World)
handle_logout t body w = do
  request ← LogoutRequest.deserialize body
  if not (Database.is_logged_in t w.database_)
      then send_msg (LogoutResponse.serialize (status_code StatusCode.unauthorized)) w
      else send_msg (LogoutResponse.serialize (status_code StatusCode.ok))
          (record w { database_ = (Database.logout t w.database_).1 })

unfoldable pub handle_list_accounts : ThreadId → Bytes → World → Outcome (Status × World)
handle_list_accounts t body w = do
  pattern' ← AccountsRequest.deserialize body
  if not (Database.is_logged_in t w.database_)
      then (do
        m ← AccountsResponse.serialize (status_code StatusCode.unauthorized) []
        send_msg m w)
      else (do
        m ←
            AccountsResponse.serialize (status_code StatusCode.ok)
              (Database.get_usernames pattern' w.database_)
        send_msg m w)

unfoldable pub handle_send_txt : ThreadId → Bytes → World → Outcome (Status × World)
handle_send_txt t body w = do
  request ← SendTxtRequest.deserialize body
  if not (Database.is_logged_in t w.database_)
      then send_msg (SendTxtResponse.serialize (status_code StatusCode.unauthorized)) w
      else do
        r ← Database.send_txt t request.0 request.1 w.database_
        send_msg
            (SendTxtResponse.serialize
              (status_code (if is_ok r.0 then StatusCode.ok else StatusCode.user_noexist)))
            (record w { database_ = r.1 })

unfoldable pub handle_recv_txt : ThreadId → Bytes → World → Outcome (Status × World)
handle_recv_txt t body w = do
  sender ← RecvTxtRequest.deserialize body
  if not (Database.is_logged_in t w.database_)
      then (do
        m ← RecvTxtResponse.serialize (status_code StatusCode.unauthorized) (record { texts_ = [] })
        send_msg m w)
      else do
        r ← Database.recv_txt t sender (record { texts_ = [] }) w.database_
        m ←
            RecvTxtResponse.serialize
              (status_code (if is_ok r.0 then StatusCode.ok else StatusCode.user_noexist)) r.1
        send_msg m w

unfoldable pub handle_correspondents :
    (List Str → List Str) → ThreadId → Bytes → World → Outcome (Status × World)
handle_correspondents order t body w = do
  request ← CorrespondentsRequest.deserialize body
  if not (Database.is_logged_in t w.database_)
      then (do
        m ← CorrespondentsResponse.serialize (status_code StatusCode.unauthorized) []
        send_msg m w)
      else do
        r ← Database.get_correspondents order t [] w.database_
        m ← CorrespondentsResponse.serialize (status_code StatusCode.ok) r.1
        send_msg m w

unfoldable pub handle_delete :
    (List Str → List Str) → ThreadId → Bytes → World → Outcome (Status × World)
handle_delete order t body w = do
  request ← DeleteRequest.deserialize body
  if not (Database.is_logged_in t w.database_)
      then send_msg (DeleteResponse.serialize (status_code StatusCode.unauthorized)) w
      else do
        r ← Database.delete_user order t w.database_
        send_msg (DeleteResponse.serialize (status_code StatusCode.ok))
            (record w { database_ = r.1 })

unfoldable pub handle_wrong_version : World → Outcome (Status × World)
handle_wrong_version w = send_msg (WrongVersionResponse.serialize version) w

unfoldable pub handle_invalid_type : World → Outcome (Status × World)
handle_invalid_type w = send_msg InvalidTypeResponse.serialize w

unfoldable pub handle_invalid_body : World → Outcome (Status × World)
handle_invalid_body w = send_msg InvalidBodyResponse.serialize w

-- The `switch` of `handle_client`.
unfoldable pub dispatch :
    (List Str → List Str) → ThreadId → ℕ → Bytes → World → Outcome (Status × World)
dispatch order t type body w =
    if nat_eq type (msgtype MessageType.registration_request)
    then handle_registration body w
    else if nat_eq type (msgtype MessageType.login_request)
    then handle_login t body w
    else if nat_eq type (msgtype MessageType.logout_request)
    then handle_logout t body w
    else if nat_eq type (msgtype MessageType.accounts_request)
    then handle_list_accounts t body w
    else if nat_eq type (msgtype MessageType.send_txt_request)
    then handle_send_txt t body w
    else if nat_eq type (msgtype MessageType.recv_txt_request)
    then handle_recv_txt t body w
    else if nat_eq type (msgtype MessageType.correspondents_request)
    then handle_correspondents order t body w
    else if nat_eq type (msgtype MessageType.delete_request)
    then handle_delete order t body w
    else handle_invalid_type w
