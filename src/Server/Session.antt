-- ===== src/Server/Session.antt =====
-- A connection as a whole: what `handle_client` leaves behind.
use chat.Common.{
  ℕ, zero, suc, ◌+◌, ◌<◌, ◌≤◌, ◌≡◌, ◌≢◌, refl, sym, ap, subst, ◌∙◌, Bool, false, not, none, some,
  List, [], ◌∷◌, ◌++◌, length, drop, arith, nat_eq, Str, nat_Key, is_some, str_Key, lookup,
  lookup-erase, Option-cases, Bool-cases, inl, inr, Status, Outcome, done, fail, halt, Ends,
  Ends-done, Ends-bind, Ends-if,
}
use chat.Buffer.{Bytes, zeros}
use chat.Protocol.Header.{Message, version, MessageHeader, header_size}
use chat.Protocol.InvalidBodyResponse
use chat.Protocol.WrongVersionResponse
use chat.Database
use chat.Database.{ThreadId}
use chat.Database.Invariant.{WellFormed, logout-WellFormed}
use chat.Database.Deletion.{WalksKeys}
use chat.Database.Steps.{Reach-WellFormed}
use chat.Server.{is_ok, handle_wrong_version, handle_invalid_body}
use chat.Server.Transport.{RecvResult, received, failed, closed, World, send_msg, recv_loop}
use chat.Server.Effects.{
  Effects, none_yet, Post, send_msg_keeps, dispatch-Effects, Effects-Reach, NamesAccepted,
  Effects-NamesAccepted,
}
use chat.Server.Connection.{
  header_status, recv_hdr, recv_body, conclude, after_handler, round, serve, converse,
  handle_client,
}

recv_loop_shrinks :
    (rs : List RecvResult) (len total : ℕ) (buffer : Bytes) (r : Status × List RecvResult × Bytes)
    → recv_loop rs len total buffer ≡ done r
    → length r.1 ≤ length rs
unfolding recv_loop
recv_loop_shrinks [] len total buffer r e = ground arith
recv_loop_shrinks (failed ∷ rs) len total buffer r e = ground arith
recv_loop_shrinks (closed ∷ rs) len total buffer r e = ground arith
recv_loop_shrinks (received c ∷ rs) len total buffer r e =
    ground (arith, recv_loop_shrinks rs len (total + length c) (c ++ drop (length c) buffer) r)

recv_loop_takes :
    (rs : List RecvResult) (len total : ℕ) (buffer : Bytes) (r : Status × List RecvResult × Bytes)
    → total ≢ len
    → recv_loop rs len total buffer ≡ done r
    → length r.1 < length rs
unfolding recv_loop
recv_loop_takes [] len total buffer r h e = ground arith
recv_loop_takes (failed ∷ rs) len total buffer r h e = ground arith
recv_loop_takes (closed ∷ rs) len total buffer r h e = ground arith
recv_loop_takes (received c ∷ rs) len total buffer r h e =
    ground (arith, recv_loop_shrinks rs len (total + length c) (c ++ drop (length c) buffer) r)

module _ (w : World) where
  abbrev Keeps : World → Type 0
  Keeps w' = (w'.database_ ≡ w.database_) × (length w'.recvs < length w.recvs)

  header_status-Ends :
      (w1 : World)
      → Keeps w1
      → (o : Outcome MessageHeader)
      → Ends (λ (r : Status × MessageHeader × World). Keeps r.2) (header_status w1 o)
  header_status-Ends w1 k (done h) = Ends-done _ k
  header_status-Ends w1 k (fail s) = Ends-done _ k
  header_status-Ends w1 k (halt h) = record { at = λ r e. cc }

  recv_hdr-Ends : Ends (λ (r : Status × MessageHeader × World). Keeps r.2) (recv_hdr w)
  unfolding recv_hdr
  recv_hdr-Ends =
      Ends-bind {Q = λ r. length r.1 < length w.recvs}
        (recv_loop w.recvs header_size 0 (zeros header_size)) _
        (record { at = λ r e. recv_loop_takes w.recvs header_size 0 _ r (ground arith) e })
        λ r short.
          Ends-if (is_ok r.0) _ _ (header_status-Ends _ (refl, short) _) (Ends-done _ (refl, short))

  recv_body-Ends :
      (n : ℕ)
      → Ends
          (λ (r : Status × Bytes × World).
            (r.2.database_ ≡ w.database_) × (length r.2.recvs ≤ length w.recvs))
          (recv_body n w)
  unfolding recv_body
  recv_body-Ends n =
      Ends-bind {Q = λ r. length r.1 ≤ length w.recvs} (recv_loop w.recvs n 0 (zeros n)) _
        (record { at = λ r e. recv_loop_shrinks w.recvs n 0 _ r e })
        λ r short. Ends-done _ (refl, short)

module _ (order : List Str → List Str) (walks : WalksKeys order) (t : ThreadId) (w : World)
    (wf : WellFormed w.database_) where
  -- What a round does to the database, and that it takes an event.
  abbrev pub Taken : Bool × World → Type 0
  Taken r = Effects w.database_ r.1.database_ × (length r.1.recvs < length w.recvs)

  module _ (w1 : World) (e : Effects w.database_ w1.database_)
      (short : length w1.recvs < length w.recvs) where
    send_msg-Ends :
        (m : Message) → Ends (λ (r : Status × World). Taken (false, r.1)) (send_msg m w1)
    send_msg-Ends m = record {
      at = λ r q.
          let (same, rest) = send_msg_keeps m w1 r.0 r.1 q in
          (subst (Effects w.database_) (sym same) e, rw rest short);
    }

    conclude-Ends : (s : Status) → Ends Taken (conclude s w1)
    unfolding conclude handle_invalid_body
    conclude-Ends Status.body_error =
        Ends-bind _ _ (send_msg-Ends InvalidBodyResponse.serialize) λ r k. Ends-done _ k
    conclude-Ends Status.ok = Ends-done _ (e, short)
    conclude-Ends Status.error = Ends-done _ (e, short)
    conclude-Ends Status.send_error = Ends-done _ (e, short)
    conclude-Ends Status.receive_error = Ends-done _ (e, short)
    conclude-Ends Status.closed_connection = Ends-done _ (e, short)
    conclude-Ends Status.header_error = Ends-done _ (e, short)

  after_handler-Ends :
      (w1 : World)
      → (w1.database_ ≡ w.database_)
      → (length w1.recvs < length w.recvs)
      → (o : Outcome (Status × World)) → Post (Effects w1.database_) w1.recvs o
      → Ends Taken (after_handler w1 o)
  unfolding after_handler
  after_handler-Ends w1 same short (done r) p =
      let (es, rest) = p.at r.0 r.1 refl in
      conclude-Ends r.1 (subst (λ d. Effects d r.1.database_) same es) (rw rest short) r.0
  after_handler-Ends w1 same short (fail s) p =
      conclude-Ends w1 (subst (Effects w.database_) (sym same) none_yet) short s
  after_handler-Ends w1 same short (halt h) p = record { at = λ r e. cc }

  pub round-Ends : Ends Taken (round order t w)
  unfolding round handle_wrong_version
  round-Ends = Ends-bind (recv_hdr w) _ (recv_hdr-Ends w) λ h k.
      let none_done : Effects w.database_ h.2.database_ =
        subst (Effects w.database_) (sym k.0) none_yet in
      Ends-if (not (is_ok h.0)) _ _ (Ends-done _ (none_done, k.1)) (
        Ends-if (not (nat_eq h.1.version_ version)) _ _
          (Ends-bind _ _ (send_msg-Ends h.2 none_done k.1 (WrongVersionResponse.serialize version))
            λ r q. Ends-done _ q)
          (Ends-bind (recv_body h.1.body_len_ h.2) _ (recv_body-Ends h.2 h.1.body_len_) λ b kb.
            Ends-if (not (is_ok b.0)) _ _
              (Ends-done _
                (subst (Effects w.database_) (sym (kb.0 ∙ k.0)) none_yet, omega (arith, kb.1, k.1)))
              (after_handler-Ends b.2 (kb.0 ∙ k.0) (omega (arith, kb.1, k.1)) _ (
                dispatch-Effects t b.1 b.2 (subst WellFormed (sym (kb.0 ∙ k.0)) wf) order walks
                  h.1.type_))))

logout_out :
    (t : ThreadId) (db : Database.Database) → lookup t (Database.logout t db).1.threads_ ≡ none
unfolding Database.logout
logout_out t db = elim (Option-cases (lookup t db.threads_)) [
  | inl e ↦ ground arith
  | inr (a, e) ↦ ground (arith, lookup-erase t t db.threads_)
]

logout_users : (t : ThreadId) (db : Database.Database) → (Database.logout t db).1.users_ ≡ db.users_
unfolding Database.logout
logout_users t db = ground arith

module _ (order : List Str → List Str) (walks : WalksKeys order) (t : ThreadId) where
  abbrev Sound : World → Type 0
  Sound w = WellFormed w.database_ × NamesAccepted w.database_

  serve-Ends : (f : ℕ) (w : World) → Sound w → Ends Sound (serve f order t w)
  unfolding serve
  serve-Ends zero w s = record { at = λ r e. cc }
  serve-Ends (suc f) w s = Ends-bind (round order t w) _ (round-Ends order walks t w s.0) λ r k.
      let s' : Sound r.1 =
        (Reach-WellFormed s.0 (Effects-Reach k.0), Effects-NamesAccepted k.0 s.1) in
      elim (Bool-cases r.0) [ inl e ↦ rw e (serve-Ends f r.1 s') | inr e ↦ rw e (Ends-done r.1 s') ]

  -- When a connection that was accepted, to a server with a well-formed database and accepted names,
  -- has ended, its thread acts for no user, the database is still well formed, and every user still
  -- has a name that registration accepts.
  pub handle_client_ends :
      (client_fd : ℕ) (client_ip : Str) (w w' : World)
      → WellFormed w.database_
      → NamesAccepted w.database_
      → handle_client order t (some client_fd) (some client_ip) w ≡ done w'
      → (lookup t w'.database_.threads_ ≡ none)
        × WellFormed w'.database_
        × NamesAccepted w'.database_
  unfolding handle_client converse
  handle_client_ends client_fd client_ip w w' wf names h =
      let (out, sound) = ends.at w' h in (out, sound.0, sound.1)
    where
      ends : Ends (λ v. (lookup t v.database_.threads_ ≡ none) × Sound v) (converse order t w)
      ends = Ends-bind (serve (length w.recvs + 1) order t w) _ (serve-Ends _ w (wf, names)) λ v k.
          Ends-done _ (
            logout_out t v.database_,
            (
              logout-WellFormed k.0 t,
              λ a e.
                  k.1 a (ap (λ us. is_some (lookup a us)) (sym (logout_users t v.database_)) ∙ e),
            ),
          )
