-- ===== src/Client/Answers.antt =====
-- What each request of the client returns, if the response to it arrives whole.
use chat.Common.{◌≡◌, refl, List, ◌∷◌, ◌++◌, length, arith, Str, done}
use chat.Chat.{Chat}
use chat.Protocol.Header.{MessageType, header_bytes, message_bytes}
use chat.Protocol.RegistrationResponse
use chat.Protocol.LoginResponse
use chat.Protocol.LogoutResponse
use chat.Protocol.SendTxtResponse
use chat.Protocol.DeleteResponse
use chat.Protocol.Requests.{Request, encode, encode-Decodes}
use chat.Protocol.Requests
use chat.Protocol.Responses.{Response, response_round_trip}
use chat.Protocol.Responses
use chat.Server.Transport.{SendResult, RecvResult, accepted, received}
use chat.Client
use chat.Client.{Client, exchange}
use chat.Client.Replies.{exchange_whole}
use chat.Client.Sound.{
  Sound, Code-Sound, Names-Sound, Names-other-Sound, Texts-Sound, Texts-other-Sound,
}

-- Which response answers a request.
abbrev pub Answers : Request → Response → Type 0
Answers (Request.registration u p) (Response.registration c) = Unit {0}
Answers (Request.login u p) (Response.login c) = Unit {0}
Answers Request.logout (Response.logout c) = Unit {0}
Answers (Request.send_txt r t) (Response.send_txt c) = Unit {0}
Answers Request.delete (Response.delete c) = Unit {0}
Answers (Request.accounts p) (Response.accounts us) = Unit {0}
Answers (Request.accounts p) (Response.no_accounts c) = Unit {0}
Answers Request.correspondents (Response.correspondents us) = Unit {0}
Answers Request.correspondents (Response.no_correspondents c) = Unit {0}
Answers (Request.recv_txt s) (Response.recv_txt c) = Unit {0}
Answers (Request.recv_txt s) (Response.no_texts c) = Unit {0}
Answers q r = ⊥

-- What the client's method for a request returns, given that its caller passes `ns` or `cs` in: the
-- status code and, if it is OK, what the response tells.
abbrev pub Returns : Request → Response → List Str → Chat → Client → Client → Type 0
Returns (Request.registration u p) (Response.registration c) ns cs a b =
    Client.registration u p a ≡ done (c, b)
Returns (Request.login u p) (Response.login c) ns cs a b = Client.login u p a ≡ done (c, b)
Returns Request.logout (Response.logout c) ns cs a b = Client.logout a ≡ done (c, b)
Returns (Request.send_txt r t) (Response.send_txt c) ns cs a b = Client.send_txt r t a ≡ done (c, b)
Returns Request.delete (Response.delete c) ns cs a b = Client.delete_account a ≡ done (c, b)
Returns (Request.accounts p) (Response.accounts us) ns cs a b =
    Client.list_accounts p ns a ≡ done ((0, us), b)
Returns (Request.accounts p) (Response.no_accounts c) ns cs a b =
    Client.list_accounts p ns a ≡ done ((c, ns), b)
Returns Request.correspondents (Response.correspondents us) ns cs a b =
    Client.recv_correspondents ns a ≡ done ((0, us), b)
Returns Request.correspondents (Response.no_correspondents c) ns cs a b =
    Client.recv_correspondents ns a ≡ done ((c, ns), b)
Returns (Request.recv_txt s) (Response.recv_txt c) ns cs a b =
    Client.recv_txt s cs a ≡ done ((0, c), b)
Returns (Request.recv_txt s) (Response.no_texts c) ns cs a b =
    Client.recv_txt s cs a ≡ done ((c, cs), b)
Returns q r ns cs a b = ⊥

-- The response to a request, as the client checks it.
pub answer-Sound :
    (names : List Str) (texts : Chat) (q : Request) (r : Response)
    → Answers q r
    → Responses.Fits r
    → Sound (Responses.encode names texts r) (Responses.kind r)
answer-Sound names texts (Request.registration u p) (Response.registration c) w g =
    unfold RegistrationResponse.serialize in
    Code-Sound MessageType.registration_response c (omega arith)
answer-Sound names texts (Request.login u p) (Response.login c) w g =
    unfold LoginResponse.serialize in Code-Sound MessageType.login_response c (omega arith)
answer-Sound names texts Request.logout (Response.logout c) w g =
    unfold LogoutResponse.serialize in Code-Sound MessageType.logout_response c (omega arith)
answer-Sound names texts (Request.send_txt t u) (Response.send_txt c) w g =
    unfold SendTxtResponse.serialize in Code-Sound MessageType.send_txt_response c (omega arith)
answer-Sound names texts Request.delete (Response.delete c) w g =
    unfold DeleteResponse.serialize in Code-Sound MessageType.delete_response c (omega arith)
answer-Sound names texts (Request.accounts p) (Response.accounts us) w g =
    Names-Sound MessageType.accounts_response us (omega arith) g
answer-Sound names texts (Request.accounts p) (Response.no_accounts c) w g =
    Names-other-Sound MessageType.accounts_response c names (omega arith) g.1
answer-Sound names texts Request.correspondents (Response.correspondents us) w g =
    Names-Sound MessageType.correspondents_response us (omega arith) g
answer-Sound names texts Request.correspondents (Response.no_correspondents c) w g =
    Names-other-Sound MessageType.correspondents_response c names (omega arith) g.1
answer-Sound names texts (Request.recv_txt u) (Response.recv_txt c) w g = Texts-Sound c g
answer-Sound names texts (Request.recv_txt u) (Response.no_texts c) w g =
    Texts-other-Sound c texts g.1
answer-Sound names texts q r w g = absurd w

module _ (sent_ns ns : List Str) (sent_cs cs : Chat) (a : Client) (ss : List SendResult)
    (rs : List RecvResult) where
  abbrev pub after : Request → Client
  after q = record a { sends = ss; recvs = rs; wire = a.wire ++ message_bytes (encode q) }

  -- One call takes the request, and two bring the header and the body of the response.
  abbrev pub Delivered : Request → Response → Type 0
  Delivered q r =
      (a.sends ≡ accepted (length (message_bytes (encode q))) ∷ ss)
      × (a.recvs
          ≡ received (header_bytes (Responses.encode sent_ns sent_cs r).hdr_)
            ∷ (received (Responses.encode sent_ns sent_cs r).body_ ∷ rs))

  exchanged :
      (q : Request) (r : Response)
      → Answers q r
      → Requests.Fits q
      → Responses.Fits r
      → Delivered q r
      → exchange (encode q) (Responses.kind r) a
        ≡ done ((Responses.encode sent_ns sent_cs r).body_, after q)
  exchanged q r w fits g d =
      let s = answer-Sound sent_ns sent_cs q r w g in
      exchange_whole (encode q) (encode-Decodes q fits).1 (Responses.encode sent_ns sent_cs r)
        s.sized s.in_range s.of_version (Responses.kind r) s.of_type s.some_body a ss rs d.0 d.1

  -- If the client's request is taken in one call, and the response to it that the server forms
  -- arrives in one call for its header and one for its body, then the client's method returns what
  -- the response tells, and has put the request on the wire once.
  pub request_answered :
      (q : Request) (r : Response)
      → Answers q r
      → Requests.Fits q
      → Responses.Fits r
      → Delivered q r
      → Returns q r ns cs a (after q)
  request_answered (Request.registration u p) (Response.registration c) w f g d =
      unfold Client.registration in
      rw
        (
          exchanged (Request.registration u p) (Response.registration c) w f g d,
          (response_round_trip sent_ns ns sent_cs cs (Response.registration c) g).1,
        )
        refl
  request_answered (Request.login u p) (Response.login c) w f g d =
      unfold Client.login in
      rw
        (
          exchanged (Request.login u p) (Response.login c) w f g d,
          (response_round_trip sent_ns ns sent_cs cs (Response.login c) g).1,
        )
        refl
  request_answered Request.logout (Response.logout c) w f g d =
      unfold Client.logout in
      rw
        (
          exchanged Request.logout (Response.logout c) w f g d,
          (response_round_trip sent_ns ns sent_cs cs (Response.logout c) g).1,
        )
        refl
  request_answered (Request.send_txt to txt) (Response.send_txt c) w f g d =
      unfold Client.send_txt in
      rw
        (
          exchanged (Request.send_txt to txt) (Response.send_txt c) w f g d,
          (response_round_trip sent_ns ns sent_cs cs (Response.send_txt c) g).1,
        )
        refl
  request_answered Request.delete (Response.delete c) w f g d =
      unfold Client.delete_account in
      rw
        (
          exchanged Request.delete (Response.delete c) w f g d,
          (response_round_trip sent_ns ns sent_cs cs (Response.delete c) g).1,
        )
        refl
  request_answered (Request.accounts p) (Response.accounts us) w f g d =
      unfold Client.list_accounts in
      rw
        (
          exchanged (Request.accounts p) (Response.accounts us) w f g d,
          (response_round_trip sent_ns ns sent_cs cs (Response.accounts us) g).1,
        )
        refl
  request_answered (Request.accounts p) (Response.no_accounts c) w f g d =
      unfold Client.list_accounts in
      rw
        (
          exchanged (Request.accounts p) (Response.no_accounts c) w f g d,
          (response_round_trip sent_ns ns sent_cs cs (Response.no_accounts c) g).1,
        )
        refl
  request_answered Request.correspondents (Response.correspondents us) w f g d =
      unfold Client.recv_correspondents in
      rw
        (
          exchanged Request.correspondents (Response.correspondents us) w f g d,
          (response_round_trip sent_ns ns sent_cs cs (Response.correspondents us) g).1,
        )
        refl
  request_answered Request.correspondents (Response.no_correspondents c) w f g d =
      unfold Client.recv_correspondents in
      rw
        (
          exchanged Request.correspondents (Response.no_correspondents c) w f g d,
          (response_round_trip sent_ns ns sent_cs cs (Response.no_correspondents c) g).1,
        )
        refl
  request_answered (Request.recv_txt from) (Response.recv_txt c) w f g d =
      unfold Client.recv_txt in
      rw
        (
          exchanged (Request.recv_txt from) (Response.recv_txt c) w f g d,
          (response_round_trip sent_ns ns sent_cs cs (Response.recv_txt c) g).1,
        )
        refl
  request_answered (Request.recv_txt from) (Response.no_texts c) w f g d =
      unfold Client.recv_txt in
      rw
        (
          exchanged (Request.recv_txt from) (Response.no_texts c) w f g d,
          (response_round_trip sent_ns ns sent_cs cs (Response.no_texts c) g).1,
        )
        refl
  request_answered q r w f g d = absurd w
