-- ===== src/Examples/Exchanges.antt =====
-- A client's request and its reply.
use chat.Common.{◌<◌, ◌≡◌, refl, [], ◌∷◌, ◌++◌, length, arith, done}
use chat.Endianness.{le_bytes}
use chat.Protocol.Header.{Message, IsWellSized, header_bytes, message_bytes}
use chat.Protocol.Header.RoundTrip.{InRange}
use chat.Protocol.Layout.Empty
use chat.Protocol.Layout.Code
use chat.Protocol.LogoutRequest
use chat.Protocol.LogoutResponse
use chat.Server.Transport.{accepted, received, closed}
use chat.Server.Connection.{round}
use chat.Common.{true}
use chat.Chat.{Chat}
use chat.Protocol.Requests.{Request}
use chat.Protocol.Responses.{Response}
use chat.Protocol.Requests.{encode}
use chat.Database.{login, registration, logout, is_logged_in}
use chat.Common.{lookup, insert, contains, str_eq, str_lt}
use chat.Server.Service.{respond}
use chat.Client.Round.{body_events, request_served}
use chat.Examples.Accounts.{as_stored, both_logged_in, registered_both}
use chat.Examples.Serving.{one_logout}
use chat.Client
use chat.Client.{Client, exchange}
use chat.Client.Answers.{Delivered}

abbrev no_text : Chat
no_text = record { texts_ = [] }

abbrev request : Message
request = LogoutRequest.serialize

abbrev answer : Message
answer = LogoutResponse.serialize 0

abbrev waiting_client : Client
waiting_client = record {
  sends = accepted 8 ∷ [];
  recvs = received (header_bytes answer.hdr_) ∷ received answer.body_ ∷ [];
  wire = [];
}

request_sized : IsWellSized request
unfolding LogoutRequest.serialize Empty.serialize
request_sized = refl

reply_sized : IsWellSized answer
unfolding LogoutResponse.serialize Code.serialize le_bytes
reply_sized = refl

reply-InRange : InRange answer.hdr_
unfolding LogoutResponse.serialize Code.serialize
reply-InRange = record {
  version_fits = omega arith;
  type_fits = omega arith;
  body_len_fits = omega arith;
}

reply_version : answer.hdr_.version_ ≡ 1
unfolding LogoutResponse.serialize Code.serialize
reply_version = refl

reply_type : answer.hdr_.type_ ≡ 203
unfolding LogoutResponse.serialize Code.serialize
reply_type = refl

some_body : 0 < length answer.body_
unfolding LogoutResponse.serialize Code.serialize le_bytes
some_body = omega arith

request_taken : waiting_client.sends ≡ accepted (length (message_bytes request)) ∷ []
unfolding LogoutRequest.serialize Empty.serialize message_bytes header_bytes le_bytes
request_taken = refl

logout-Delivered :
    Delivered [] [] no_text no_text waiting_client [] [] Request.logout (Response.logout 0)
logout-Delivered = (request_taken, refl)

logout_promised :
    respond as_stored 1 Request.logout one_logout.database_
    ≡ done (Response.logout 0, (logout 1 both_logged_in).1)
unfolding respond is_logged_in lookup both_logged_in registered_both login registration insert
    str_eq str_lt contains
logout_promised = refl

answer_taken : one_logout.sends ≡ accepted (length (message_bytes answer)) ∷ []
unfolding LogoutResponse.serialize Code.serialize message_bytes header_bytes le_bytes
answer_taken = refl

logout_arrives :
    one_logout.recvs
    ≡ received (header_bytes (encode Request.logout).hdr_)
      ∷ body_events (encode Request.logout).body_ (closed ∷ [])
unfolding LogoutRequest.serialize Empty.serialize header_bytes le_bytes
logout_arrives = refl

request_served_example :
    (round as_stored 1 one_logout
      ≡ done (
        true,
        record one_logout {
          database_ = (logout 1 both_logged_in).1;
          sends = [];
          recvs = closed ∷ [];
          wire = [] ++ message_bytes answer;
        },
      ))
    × (Client.logout waiting_client
        ≡ done (
          0,
          record waiting_client { sends = []; recvs = []; wire = [] ++ message_bytes request },
        ))
request_served_example =
    request_served as_stored 1 one_logout [] (closed ∷ []) Request.logout (Response.logout 0)
      (logout 1 both_logged_in).1 tt logout_promised (omega arith) logout_arrives answer_taken
      waiting_client [] [] [] no_text (request_taken, refl)
