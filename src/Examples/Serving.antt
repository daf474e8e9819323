-- ===== src/Examples/Serving.antt =====
-- Connections of alice, of bob and of a thread that is logged in as nobody.
use chat.Common.{
  some, halt, waiting, out_of_range, out_of_fuel, ◌≢◌, Str, nat_eq, Bool-cases, inl, inr, subst, ℕ,
  ◌-◌, ◌≡◌, ◌↔◌, refl, true, none, List, Ends, Ends-done, Ends-if, [], ◌∷◌, ◌++◌, length, take,
  arith, nat_Key, str_Key, str_eq, str_lt, lookup, insert, contains, Status, done,
}
use chat.Endianness.{le_bytes, le_value}
use chat.Buffer.{Bytes, read_bytes}
use chat.Protocol.Header.{Message, header_bytes, message_bytes, IsWellSized, deserialize_header}
use chat.Protocol.Layout.Empty
use chat.Protocol.Layout.Code
use chat.Protocol.LogoutRequest
use chat.Protocol.LogoutResponse
use chat.Chat.{Chat}
use chat.Protocol.Responses
use chat.Protocol.Responses.{Response}
use chat.Server.Service.{no_texts_at_all}
use chat.Database.{
  login, registration, logout, is_logged_in, get_usernames, matching, recv_txt, get_correspondents,
  user_at,
}
use chat.Database.View.{user_exists, has}
use chat.Database.Invariant.{WellFormed}
use chat.Database.Wildcard.{star}
use chat.Database.Wildcard.Glob.{Matches}
use chat.Server.{dispatch, handle_logout}
use chat.Server.Transport.{World, accepted, received, closed, send_loop, send_msg, recv_loop}
use chat.Server.Sends.{send_msg_partial}
use chat.Server.Effects.{NamesAccepted, dispatch-WellFormed}
use chat.Server.Listing.{get_usernames-Matches}
use chat.Server.Connection.{
  recv_hdr, recv_body, conclude, after_handler, round, serve, converse, handle_client,
}
use chat.Server.Faults.{Settled, Sendable, dispatch-ne-halt}
use chat.Server.Receives.{recv_body_in_parts}
use chat.Server.Session.{handle_client_ends}
use chat.Server.Termination.{serve_fuel}
use chat.Examples.Accounts.{
  bobby, as_stored, as_stored-WalksKeys, alice, alice_exists, bobby_exists, both_logged_in,
  registered_both, both-WellFormed, both-NamesAccepted,
}

some_inj : {a b : Str} → some a ≡ some b → a ≡ b
some_inj e = cc

-- The reply to a logout, whole.
abbrev replied : ℕ → Bytes
replied c = 1 ∷ 0 ∷ 203 ∷ 0 ∷ 4 ∷ 0 ∷ 0 ∷ 0 ∷ c ∷ 0 ∷ 0 ∷ 0 ∷ []

-- A logout request arrives, then the end of the connection. The reply is sent in one call.
abbrev pub one_logout : World
one_logout = record {
  database_ = both_logged_in;
  sends = accepted 12 ∷ [];
  recvs = received (1 ∷ 0 ∷ 103 ∷ 0 ∷ 0 ∷ 0 ∷ 0 ∷ 0 ∷ []) ∷ closed ∷ [];
  wire = [];
}

abbrev after_logout : World
after_logout = record one_logout {
  database_ = (logout 1 both_logged_in).1;
  sends = [];
  wire = replied 0;
}

logout_handled : dispatch as_stored 1 103 [] one_logout ≡ done (Status.ok, after_logout)
unfolding dispatch handle_logout LogoutRequest.deserialize Empty.deserialize is_logged_in lookup
    both_logged_in registered_both login registration insert str_eq str_lt contains
    LogoutResponse.serialize Code.serialize send_msg send_loop message_bytes header_bytes le_bytes
logout_handled = refl

dispatch-WellFormed_example :
    WellFormed after_logout.database_ × NamesAccepted after_logout.database_
dispatch-WellFormed_example =
    dispatch-WellFormed as_stored 1 103 [] one_logout after_logout Status.ok as_stored-WalksKeys
      both-WellFormed both-NamesAccepted logout_handled

-- The whole connection: the reply, then the end, at which the thread is logged out once more.
abbrev ended : World
ended = record {
  database_ = (logout 1 (logout 1 both_logged_in).1).1;
  sends = [];
  recvs = [];
  wire = replied 0;
}

abbrev localhost : Str
localhost = b'1' ∷ b'2' ∷ b'7' ∷ b'.' ∷ b'0' ∷ b'.' ∷ b'0' ∷ b'.' ∷ b'1' ∷ []

connection_run : handle_client as_stored 1 (some 4) (some localhost) one_logout ≡ done ended
unfolding handle_client converse serve round recv_hdr recv_body conclude after_handler recv_loop
    deserialize_header read_bytes le_value dispatch handle_logout LogoutRequest.deserialize
    Empty.deserialize is_logged_in lookup both_logged_in registered_both login registration insert
    str_eq str_lt contains LogoutResponse.serialize Code.serialize send_msg send_loop message_bytes
    header_bytes le_bytes
connection_run = refl

handle_client_ends_example :
    (lookup 1 ended.database_.threads_ ≡ none)
    × WellFormed ended.database_
    × NamesAccepted ended.database_
handle_client_ends_example =
    handle_client_ends as_stored as_stored-WalksKeys 1 4 localhost one_logout ended both-WellFormed
      both-NamesAccepted connection_run

serve_fuel_example :
    (serve 8 as_stored 1 one_logout ≢ halt out_of_fuel)
    × (serve 8 as_stored 1 one_logout ≡ serve 3 as_stored 1 one_logout)
serve_fuel_example =
    serve_fuel as_stored 1 as_stored-WalksKeys 8 one_logout both-WellFormed (omega arith)

-- A connection that is not accepted leaves everything as it is.
not_accepted : handle_client as_stored 1 none (some localhost) one_logout ≡ done one_logout
unfolding handle_client
not_accepted = refl

-- A thread that is logged in as nobody sends a request to log out.
abbrev refused_logout : World
refused_logout = record one_logout { sends = []; wire = replied 6 }

get_usernames-Matches_example :
    (contains bobby (get_usernames (star ∷ b'y' ∷ []) both_logged_in) ≡ true)
    ↔ ((user_exists bobby both_logged_in ≡ true) × Matches (star ∷ b'y' ∷ []) bobby)
get_usernames-Matches_example =
    get_usernames-Matches (star ∷ b'y' ∷ []) bobby both_logged_in both-NamesAccepted

abbrev reply : Message
reply = LogoutResponse.serialize 0

reply_sized : IsWellSized reply
unfolding LogoutResponse.serialize Code.serialize le_bytes
reply_sized = refl

-- The first call takes five bytes, the second seven.
abbrev slow : World
slow = record one_logout { sends = accepted 5 ∷ accepted 7 ∷ [] }

length-reply : length (message_bytes reply) ≡ 12
unfolding LogoutResponse.serialize Code.serialize message_bytes header_bytes le_bytes
length-reply = refl

slow_sends : slow.sends ≡ accepted 5 ∷ (accepted (length (message_bytes reply) - 5) ∷ [])
unfolding LogoutResponse.serialize Code.serialize message_bytes header_bytes le_bytes
slow_sends = refl

send_msg_partial_example :
    send_msg reply slow
    ≡ done (
      Status.ok,
      record slow {
        sends = [];
        wire =
            ([] ++ take 5 (message_bytes reply))
            ++ take (length (message_bytes reply) - 5) (message_bytes reply);
      },
    )
send_msg_partial_example =
    send_msg_partial reply reply_sized slow [] 5 (omega (arith, length-reply)) (omega arith)
      slow_sends

pub both-Settled : Settled both_logged_in
unfolding both_logged_in registered_both login registration lookup insert str_eq str_lt contains has
both-Settled = record {
  acting_exists = λ t a e. elim (Bool-cases (nat_eq 1 t)) [
    | inl one ↦
        let same : some alice ≡ some a = ground (arith, e, one) in
        subst (λ x. user_exists x both_logged_in ≡ true) (some_inj same) alice_exists
    | inr other ↦
        let same : some bobby ≡ some a = ground (arith, e, other) in
        subst (λ x. user_exists x both_logged_in ≡ true) (some_inj same) bobby_exists
  ];
  no_self_chat = λ a. ground arith;
}

-- Thread 1 is told of two accounts at most, of no texts and of no correspondents.
nothing_read :
    (u : Str)
    → Ends
        (λ (r : Status × Chat). Responses.Fits (Response.recv_txt r.1))
        (recv_txt 1 u no_texts_at_all both_logged_in)
unfolding both_logged_in registered_both login registration lookup insert str_eq str_lt contains
    recv_txt user_at
nothing_read u = Ends-if _ _ _ (Ends-done _ (omega arith)) (Ends-done _ (omega arith))

none_listed :
    Ends
      (λ (r : Status × List Str). Responses.Fits (Response.correspondents r.1))
      (get_correspondents as_stored 1 [] both_logged_in)
unfolding both_logged_in registered_both login registration lookup insert str_eq str_lt contains
    get_correspondents user_at
none_listed = Ends-done _ (omega arith)

one-Sendable : Sendable as_stored 1 both_logged_in
unfolding both_logged_in registered_both login registration lookup insert str_eq str_lt contains
    get_usernames matching
one-Sendable = record {
  accounts_fit = λ p. ground arith;
  texts_fit = λ u c e. (nothing_read u).at (Status.ok, c) e;
  correspondents_fit = λ r e. none_listed.at r e;
}

out_of_range-ne-waiting : out_of_range ≢ waiting
out_of_range-ne-waiting e = cc

dispatch-ne-halt_example : dispatch as_stored 1 103 [] one_logout ≢ halt out_of_range
dispatch-ne-halt_example =
    dispatch-ne-halt as_stored 1 103 [] one_logout out_of_range as_stored-WalksKeys both-WellFormed
      both-Settled one-Sendable out_of_range-ne-waiting

-- The body `hello` in the parts `he` and `llo`.
abbrev first_part : Bytes
first_part = b'h' ∷ b'e' ∷ []

abbrev second_part : Bytes
second_part = b'l' ∷ b'l' ∷ b'o' ∷ []

abbrev in_parts : World
in_parts = record one_logout { recvs = received first_part ∷ received second_part ∷ [] }

recv_body_in_parts_example :
    recv_body 5 in_parts
    ≡ done (Status.ok, b'l' ∷ b'l' ∷ b'o' ∷ 0 ∷ 0 ∷ [], record in_parts { recvs = [] })
recv_body_in_parts_example =
    recv_body_in_parts first_part second_part [] in_parts (omega arith) (omega arith) refl
