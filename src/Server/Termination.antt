-- ===== src/Server/Termination.antt =====
-- The rounds of `server::handle_client` come to an end.
use chat.Common.{
  ℕ, zero, suc, ◌+◌, ◌<◌, ◌≡◌, ◌≢◌, refl, subst, sym, not, List, [], ◌∷◌, ◌++◌, length, drop, arith,
  nat_eq, Str, Status, Halt, Outcome, done, fail, halt, out_of_fuel, waiting, HaltsIn, HaltsIn-done,
  HaltsIn-halt, HaltsIn-bind, HaltsIn-if, Bool-cases, inl, inr, bind_ext,
}
use chat.Buffer.{Bytes, zeros}
use chat.Protocol.Header.{MessageHeader, header_size, version}
use chat.Database.{ThreadId}
use chat.Database.Invariant.{WellFormed}
use chat.Database.Deletion.{WalksKeys}
use chat.Database.Steps.{Reach-WellFormed}
use chat.Server.{is_ok, handle_wrong_version, handle_invalid_body}
use chat.Server.Transport.{RecvResult, received, failed, closed, World, recv_loop}
use chat.Server.Effects.{Effects-Reach}
use chat.Server.Halts.{send_msg-HaltsIn}
use chat.Server.Fuel.{NoFuel, waiting-NoFuel, deserialize_header-NoFuel, dispatch-NoFuel}
use chat.Server.Session.{round-Ends}
use chat.Server.Connection.{
  header_status, recv_hdr, recv_body, conclude, after_handler, round, serve,
}

recv_loop_waits :
    (rs : List RecvResult) (len total : ℕ) (buffer : Bytes) (h : Halt)
    → recv_loop rs len total buffer ≡ halt h
    → h ≡ waiting
unfolding recv_loop
recv_loop_waits [] len total buffer h e = ground arith
recv_loop_waits (failed ∷ rs) len total buffer h e = ground arith
recv_loop_waits (closed ∷ rs) len total buffer h e = ground arith
recv_loop_waits (received c ∷ rs) len total buffer h e =
    ground (arith, recv_loop_waits rs len (total + length c) (c ++ drop (length c) buffer) h)

recv_loop-NoFuel :
    (rs : List RecvResult) (len total : ℕ) (buffer : Bytes)
    → HaltsIn NoFuel (recv_loop rs len total buffer)
recv_loop-NoFuel rs len total buffer = record {
  only = λ h e. subst NoFuel (sym (recv_loop_waits rs len total buffer h e)) waiting-NoFuel;
}

header_status-NoFuel :
    (w : World) (o : Outcome MessageHeader) → HaltsIn NoFuel o → HaltsIn NoFuel (header_status w o)
header_status-NoFuel w (done a) n = HaltsIn-done _ _ refl
header_status-NoFuel w (fail s) n = HaltsIn-done _ _ refl
header_status-NoFuel w (halt g) n = HaltsIn-halt g (n.only g refl)

recv_hdr-NoFuel : (w : World) → HaltsIn NoFuel (recv_hdr w)
unfolding recv_hdr
recv_hdr-NoFuel w =
    HaltsIn-bind _ _ (recv_loop-NoFuel w.recvs header_size 0 (zeros header_size)) λ r e.
      HaltsIn-if (is_ok r.0) _ _ (header_status-NoFuel _ _ (deserialize_header-NoFuel r.2))
        (HaltsIn-done _ _ refl)

recv_body-NoFuel : (n : ℕ) (w : World) → HaltsIn NoFuel (recv_body n w)
unfolding recv_body
recv_body-NoFuel n w =
    HaltsIn-bind _ _ (recv_loop-NoFuel w.recvs n 0 (zeros n)) λ r e. HaltsIn-done _ _ refl

conclude-NoFuel : (s : Status) (w : World) → HaltsIn NoFuel (conclude s w)
unfolding conclude handle_invalid_body
conclude-NoFuel Status.body_error w =
    HaltsIn-bind _ _ (send_msg-HaltsIn NoFuel _ _ waiting-NoFuel) λ r e. HaltsIn-done _ _ refl
conclude-NoFuel Status.ok w = HaltsIn-done _ _ refl
conclude-NoFuel Status.error w = HaltsIn-done _ _ refl
conclude-NoFuel Status.send_error w = HaltsIn-done _ _ refl
conclude-NoFuel Status.receive_error w = HaltsIn-done _ _ refl
conclude-NoFuel Status.closed_connection w = HaltsIn-done _ _ refl
conclude-NoFuel Status.header_error w = HaltsIn-done _ _ refl

after_handler-NoFuel :
    (w : World) (o : Outcome (Status × World))
    → HaltsIn NoFuel o
    → HaltsIn NoFuel (after_handler w o)
unfolding after_handler
after_handler-NoFuel w (done r) n = conclude-NoFuel r.0 r.1
after_handler-NoFuel w (fail s) n = conclude-NoFuel s w
after_handler-NoFuel w (halt g) n = HaltsIn-halt g (n.only g refl)

module _ (order : List Str → List Str) (t : ThreadId) where
  round-NoFuel : (w : World) → HaltsIn NoFuel (round order t w)
  unfolding round handle_wrong_version
  round-NoFuel w = HaltsIn-bind _ _ (recv_hdr-NoFuel w) λ h e.
      HaltsIn-if (not (is_ok h.0)) _ _ (HaltsIn-done _ _ refl) (
        HaltsIn-if (not (nat_eq h.1.version_ version)) _ _
          (HaltsIn-bind _ _ (send_msg-HaltsIn NoFuel _ _ waiting-NoFuel)
            λ r e1. HaltsIn-done _ _ refl)
          (HaltsIn-bind _ _ (recv_body-NoFuel h.1.body_len_ h.2) λ b e1.
            HaltsIn-if (not (is_ok b.0)) _ _ (HaltsIn-done _ _ refl)
              (after_handler-NoFuel b.2 _ (dispatch-NoFuel order t h.1.type_ b.1 b.2))))

  module _ (walks : WalksKeys order) where
    serve-NoFuel :
        (f : ℕ) (w : World)
        → WellFormed w.database_
        → length w.recvs < f
        → HaltsIn NoFuel (serve f order t w)
    unfolding serve
    serve-NoFuel zero w wf hf = absurd (omega (arith, hf))
    serve-NoFuel (suc f) w wf hf = HaltsIn-bind (round order t w) _ (round-NoFuel w) λ r e.
        let k = (round-Ends order walks t w wf).at r e in
        elim (Bool-cases r.0) [
          | inl g ↦ rw g (
              serve-NoFuel f r.1 (Reach-WellFormed wf (Effects-Reach k.0)) (omega (arith, k.1, hf)))
          | inr g ↦ rw g (HaltsIn-done _ _ refl)
        ]

    serve_same :
        (f g : ℕ) (w : World)
        → WellFormed w.database_
        → length w.recvs < f
        → length w.recvs < g
        → serve f order t w ≡ serve g order t w
    unfolding serve
    serve_same zero g w wf hf hg = absurd (omega (arith, hf))
    serve_same (suc f) zero w wf hf hg = absurd (omega (arith, hg))
    serve_same (suc f) (suc g) w wf hf hg =
        bind_ext (round order t w) _ _ (round-Ends order walks t w wf) λ r k.
          elim (Bool-cases r.0) [
            | inl e ↦ rw e (
                serve_same f g r.1 (Reach-WellFormed wf (Effects-Reach k.0)) (omega (arith, k.1))
                  (omega (arith, k.1)))
            | inr e ↦ rw e refl
          ]

    -- From a well-formed database on, the rounds of a connection come to an end: with a unit of fuel
    -- more than the socket has events, or with any more fuel, the loop does not run out of it, and its
    -- result is the same.
    pub serve_fuel :
        (f : ℕ) (w : World)
        → WellFormed w.database_
        → length w.recvs < f
        → (serve f order t w ≢ halt out_of_fuel)
          × (serve f order t w ≡ serve (length w.recvs + 1) order t w)
    serve_fuel f w wf h = (
      λ e. (serve-NoFuel f w wf h).only out_of_fuel e refl,
      serve_same f (length w.recvs + 1) w wf h (omega arith),
    )
