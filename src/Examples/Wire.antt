-- ===== src/Examples/Wire.antt =====
-- Messages on the wire.
use chat.Common.{
  ℕ, zero, suc, ap, List, length, Str, ◌<◌, ◌^◌, ◌≡◌, ◌≢◌, refl, [], ◌∷◌, All, arith, done, fail,
  body_error, halt, out_of_bounds,
}
use chat.Endianness.{IsByte, le_value}
use chat.Buffer.{Bytes, read_bytes, read_u32}
use chat.Chat.{Chat, sender_you, sender_other}
use chat.Protocol.Header.{MessageHeader, MessageType, msgtype, IsWellSized}
use chat.Protocol.Header.RoundTrip.{InRange}
use chat.Protocol.Lookup.{message_type_lookup}
use chat.Protocol.Layout.Pair
use chat.Protocol.Layout.Names
use chat.Protocol.Layout.Strings.{sum, IsShort}
use chat.Protocol.Layout.Overflow.{serialize-overflow}
use chat.Protocol.Layout.Overrun.{two_lengths, deserialize-two_lengths}
use chat.Protocol.Requests
use chat.Protocol.Requests.{Request, encode, encode-Decodes, Decodes-exact, requests-ne-halt}
use chat.Protocol.Responses
use chat.Protocol.Responses.{Response, response_round_trip}
use chat.Protocol.LoginRequest
use chat.Protocol.RegistrationRequest
use chat.Protocol.SendTxtRequest
use chat.Protocol.AccountsRequest
use chat.Protocol.RecvTxtRequest
use chat.Protocol.LogoutRequest
use chat.Protocol.CorrespondentsRequest
use chat.Protocol.DeleteRequest
use chat.Examples.Accounts.{alice, bobby, secret, hello}

-- A body that ends before the strings that it announces.
abbrev cut_short : Bytes
cut_short = 5 ∷ 0 ∷ 0 ∷ 0 ∷ 4 ∷ 0 ∷ 0 ∷ 0 ∷ b'a' ∷ []

cut_short_refused : LoginRequest.deserialize cut_short ≡ fail body_error
unfolding LoginRequest.deserialize Pair.deserialize read_u32 read_bytes le_value
cut_short_refused = refl

login_reply_name : message_type_lookup 202 ≡ "Login response"
unfolding message_type_lookup
login_reply_name = refl

abbrev log_alice_in : Request
log_alice_in = Request.login alice secret

encode-Decodes_example :
    (LoginRequest.deserialize (encode log_alice_in).body_ ≡ done (alice, secret))
    × IsWellSized (encode log_alice_in)
    × ((encode log_alice_in).hdr_.type_ ≡ msgtype (Requests.kind log_alice_in))
encode-Decodes_example = encode-Decodes log_alice_in (omega arith)

-- The body of `hi` to `bobby` by its bytes.
abbrev hi_to_bobby : Bytes
hi_to_bobby = 5 ∷ 0 ∷ 0 ∷ 0 ∷ 2 ∷ 0 ∷ 0 ∷ 0 ∷ b'b' ∷ b'o' ∷ b'b' ∷ b'b' ∷ b'y' ∷ b'h' ∷ b'i' ∷ []

hi_to_bobby_read : SendTxtRequest.deserialize hi_to_bobby ≡ done (bobby, hello)
unfolding SendTxtRequest.deserialize Pair.deserialize read_u32 read_bytes le_value
hi_to_bobby_read = refl

hi_to_bobby_bytes : All IsByte hi_to_bobby
hi_to_bobby_bytes = ground arith

Decodes-exact_example :
    (MessageType.send_txt_request ≡ Requests.kind (Request.send_txt bobby hello))
    × (hi_to_bobby ≡ (encode (Request.send_txt bobby hello)).body_)
Decodes-exact_example =
    Decodes-exact MessageType.send_txt_request hi_to_bobby (Request.send_txt bobby hello)
      hi_to_bobby_bytes hi_to_bobby_read

requests-ne-halt_example :
    (RegistrationRequest.deserialize cut_short ≢ halt out_of_bounds)
    × (LoginRequest.deserialize cut_short ≢ halt out_of_bounds)
    × (SendTxtRequest.deserialize cut_short ≢ halt out_of_bounds)
    × (AccountsRequest.deserialize cut_short ≢ halt out_of_bounds)
    × (RecvTxtRequest.deserialize cut_short ≢ halt out_of_bounds)
    × (LogoutRequest.deserialize cut_short ≢ halt out_of_bounds)
    × (CorrespondentsRequest.deserialize cut_short ≢ halt out_of_bounds)
    × (DeleteRequest.deserialize cut_short ≢ halt out_of_bounds)
requests-ne-halt_example = requests-ne-halt cut_short out_of_bounds

abbrev two_texts : Chat
two_texts = record {
  texts_ =
      record { sender_ = sender_you; content_ = hello }
      ∷ record { sender_ = sender_other; content_ = alice }
      ∷ [];
}

abbrev no_text : Chat
no_text = record { texts_ = [] }

response_round_trip_example :
    (Responses.written [] no_text (Response.recv_txt two_texts)
      ≡ done (Responses.encode [] no_text (Response.recv_txt two_texts)))
    × Responses.Decodes [] no_text
        (Responses.encode [] no_text (Response.recv_txt two_texts)).body_
        (Response.recv_txt two_texts)
    × ((Responses.encode [] no_text (Response.recv_txt two_texts)).hdr_.type_
        ≡ msgtype MessageType.recv_txt_response)
response_round_trip_example =
    response_round_trip [] [] no_text no_text (Response.recv_txt two_texts) (omega arith)

deserialize-two_lengths_example :
    Names.deserialize (two_lengths 4294967295 1) [] ≡ halt out_of_bounds
deserialize-two_lengths_example =
    deserialize-two_lengths 4294967295 1 (omega arith) (omega arith) refl []

abbrev login_header : MessageHeader
login_header = record { version_ = 1; type_ = 102; body_len_ = 300 }

login_header-InRange : InRange login_header
login_header-InRange = record {
  version_fits = omega arith;
  type_fits = omega arith;
  body_len_fits = omega arith;
}

-- An OK status and the count 1, with one length that no string follows.
abbrev one_announced : Bytes
one_announced = 0 ∷ 0 ∷ 0 ∷ 0 ∷ 1 ∷ 0 ∷ 0 ∷ 0 ∷ 7 ∷ 0 ∷ 0 ∷ 0 ∷ []

announced_small : sum (Names.announced one_announced) < 2 ^ 32
unfolding le_value
announced_small = omega arith

unfoldable repeated : ℕ → Str
repeated zero = []
repeated (suc n) = b'a' ∷ repeated n

length-repeated : (n : ℕ) → length (repeated n) ≡ n
unfolding repeated
length-repeated zero = refl
length-repeated (suc n) = ap suc (length-repeated n)

-- Two names of 2 ^ 31 bytes.
abbrev two_long : List Str
two_long = repeated 2147483648 ∷ repeated 2147483648 ∷ []

long-IsShort : IsShort (repeated 2147483648)
long-IsShort = omega (arith, length-repeated 2147483648)

serialize-overflow_example :
    Names.serialize MessageType.accounts_response 0 two_long ≡ halt out_of_bounds
serialize-overflow_example =
    serialize-overflow two_long (long-IsShort, (long-IsShort, tt)) MessageType.accounts_response
      (omega (arith, length-repeated 2147483648))
