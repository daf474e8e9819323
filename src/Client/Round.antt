-- ===== src/Client/Round.antt =====
-- A client and a server that talk to each other: a round of `server::handle_client`, from the bytes of
-- a request to those of its response, and what the client makes of them.
use chat.Common.{
  suc, ◌<◌, ◌^◌, ◌≡◌, refl, sym, true, List, [], ◌∷◌, ◌++◌, length, arith, Str, Status, done,
}
use chat.Buffer.{Bytes}
use chat.Protocol.Header.{Message, version, header_size, header_bytes, message_bytes}
use chat.Protocol.Header.RoundTrip.{InRange, length-header_bytes, deserialize_header-header_bytes}
use chat.Protocol.Layout.Pair
use chat.Protocol.Layout.Single
use chat.Protocol.Layout.Empty
use chat.Protocol.RegistrationRequest
use chat.Protocol.LoginRequest
use chat.Protocol.LogoutRequest
use chat.Protocol.AccountsRequest
use chat.Protocol.SendTxtRequest
use chat.Protocol.RecvTxtRequest
use chat.Protocol.CorrespondentsRequest
use chat.Protocol.DeleteRequest
use chat.Protocol.Requests.{Request, encode, kind, encode-Decodes}
use chat.Protocol.Requests
use chat.Protocol.Responses.{Response}
use chat.Protocol.Responses
use chat.Database.{Database, ThreadId}
use chat.Server.Transport.{SendResult, RecvResult, received, accepted, World, recv_loop}
use chat.Server.Receives.{recv_loop_end}
use chat.Server.Connection.{recv_hdr, recv_body, conclude, after_handler, round}
use chat.Chat.{Chat}
use chat.Server.Service.{no_texts_at_all, respond}
use chat.Client.{Client}
use chat.Client.Answers.{Returns, after, Delivered, request_answered}
use chat.Client.Replies.{recv_loop_whole}
use chat.Client.Served.{formed, answers, dispatch_answers}

-- What the server receives of a message: the header, and the body if there is one.
abbrev pub body_events : Bytes → List RecvResult → List RecvResult
body_events [] rs = rs
body_events (b ∷ bs) rs = received (b ∷ bs) ∷ rs

-- The header of a request that fits.
record Headed (q : Request) : Type 0 where
  in_range : InRange (encode q).hdr_
  of_version : (encode q).hdr_.version_ ≡ version

headed :
    (q : Request)
    → (encode q).hdr_.version_ ≡ version
    → (encode q).hdr_.type_ < 2 ^ 16
    → (encode q).hdr_.body_len_ < 2 ^ 32
    → Headed q
headed q v t l = record {
  in_range = record { version_fits = omega (arith, v); type_fits = t; body_len_fits = l };
  of_version = v;
}

request-Headed : (q : Request) → Requests.Fits q → Headed q
request-Headed (Request.registration u p) h =
    unfold RegistrationRequest.serialize Pair.serialize in
    headed (Request.registration u p) refl (omega arith) (omega arith)
request-Headed (Request.login u p) h =
    unfold LoginRequest.serialize Pair.serialize in
    headed (Request.login u p) refl (omega arith) (omega arith)
request-Headed (Request.send_txt u p) h =
    unfold SendTxtRequest.serialize Pair.serialize in
    headed (Request.send_txt u p) refl (omega arith) (omega arith)
request-Headed (Request.accounts p) h =
    unfold AccountsRequest.serialize Single.serialize in
    headed (Request.accounts p) refl (omega arith) (omega arith)
request-Headed (Request.recv_txt u) h =
    unfold RecvTxtRequest.serialize Single.serialize in
    headed (Request.recv_txt u) refl (omega arith) (omega arith)
request-Headed Request.logout h =
    unfold LogoutRequest.serialize Empty.serialize in
    headed Request.logout refl (omega arith) (omega arith)
request-Headed Request.correspondents h =
    unfold CorrespondentsRequest.serialize Empty.serialize in
    headed Request.correspondents refl (omega arith) (omega arith)
request-Headed Request.delete h =
    unfold DeleteRequest.serialize Empty.serialize in
    headed Request.delete refl (omega arith) (omega arith)

recv_body_whole :
    (w : World) (body : Bytes) (rs : List RecvResult)
    → w.recvs ≡ body_events body rs
    → recv_body (length body) w ≡ done (Status.ok, body, record w { recvs = rs })
unfolding recv_body recv_loop
recv_body_whole w [] rs e = rw e (rw (recv_loop_end rs 0 0 [] refl) refl)
recv_body_whole w (b ∷ bs) rs e =
    rw e (rw (recv_loop_whole (b ∷ bs) rs (suc (length bs)) refl (omega arith)) refl)

recv_hdr_whole :
    (w : World) (m : Message) (rs : List RecvResult)
    → InRange m.hdr_
    → w.recvs ≡ received (header_bytes m.hdr_) ∷ rs
    → recv_hdr w ≡ done (Status.ok, m.hdr_, record w { recvs = rs })
unfolding recv_hdr
recv_hdr_whole w m rs r e = rw e (
    rw
      (recv_loop_whole (header_bytes m.hdr_) rs header_size (sym (length-header_bytes m.hdr_))
        (omega arith))
      (rw (deserialize_header-header_bytes m.hdr_ r) refl))

module _ (order : List Str → List Str) (t : ThreadId) (w : World) (ws : List SendResult)
    (rest : List RecvResult) (q : Request) (r : Response) (db' : Database) (fits : Requests.Fits q)
    (promised : respond order t q w.database_ ≡ done (r, db')) (rfits : Responses.Fits r)
    (arrives : w.recvs
      ≡ received (header_bytes (encode q).hdr_) ∷ body_events (encode q).body_ rest)
    (taken : w.sends ≡ accepted (length (message_bytes (formed r))) ∷ ws) where
  -- The connection behind the round.
  abbrev pub behind : World
  behind = record w {
    database_ = db';
    sends = ws;
    recvs = rest;
    wire = w.wire ++ message_bytes (formed r);
  }

  pub round_answers : round order t w ≡ done (true, behind)
  unfolding round conclude after_handler
  round_answers =
      let h = request-Headed q fits in
      let d = encode-Decodes q fits in
      let w1 = record w { recvs = body_events (encode q).body_ rest } in
      let w2 = record w { recvs = rest } in
      let sized : (encode q).hdr_.body_len_ ≡ length (encode q).body_ = omega (arith, d.1) in
      rw (recv_hdr_whole w (encode q) (body_events (encode q).body_ rest) h.in_range arrives) (
        rw (h.of_version, sized, d.2)
          (rw (recv_body_whole w1 (encode q).body_ rest refl)
            (rw (dispatch_answers order t w2 ws q r db' fits promised rfits taken) refl)))

  -- If the server promises the response `r` to a request that fits, and `r` fits, and if messages are
  -- sent in one call and received in one call for the header and one for the body, if there is one,
  -- then a round of the server's loop puts the message for `r` on its wire once, with the database as
  -- promised, and goes on; and the client's method returns what `r` tells.
  pub request_served :
      (a : Client) (ss : List SendResult) (rs : List RecvResult) (ns : List Str) (cs : Chat)
      → Delivered [] ns no_texts_at_all cs a ss rs q r
      → (round order t w ≡ done (true, behind))
        × Returns q r ns cs a (after [] ns no_texts_at_all cs a ss rs q)
  request_served a ss rs ns cs delivered = (
    round_answers,
    request_answered [] ns no_texts_at_all cs a ss rs q r
        (answers order t w ws q r db' fits promised rfits taken) fits rfits delivered,
  )
