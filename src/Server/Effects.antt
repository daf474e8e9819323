-- ===== src/Server/Effects.antt =====
-- What the handlers do to the database: each runs methods of the database, and none makes a user
-- whose name or password it should have refused.
use chat.Common.{
  ℕ, ◌≡◌, refl, sym, subst, Bool, true, false, not, List, [], arith, nat_eq, if◌then◌else◌, Str,
  str_eq, str_eq_iff, str_Key, nat_Key, str_lt, lookup-insert, Status, Outcome, done, fail, halt,
  ◌>>=◌, Bool-cases, inl, inr,
}
use chat.Buffer.{Bytes}
use chat.Database
use chat.Database.{ThreadId}
use chat.Database.View.{user_exists}
use chat.Database.Sending.{user_exists-sent}
use chat.Database.Invariant.{WellFormed, send_txt_inv}
use chat.Database.Deletion.{WalksKeys, delete_user_inv}
use chat.Database.Steps.{
  Step, login_step, logout_step, registration_step, send_step, delete_step, Reach, here, next,
  Reach-WellFormed,
}
use chat.Server.{
  username_refused, password_refused, handle_registration, handle_login, handle_logout,
  handle_list_accounts, handle_send_txt, handle_recv_txt, handle_correspondents, handle_delete,
  handle_invalid_type, dispatch,
}
use chat.Server.Transport.{RecvResult, World, send_msg}
use chat.Protocol.Header.{Message}
use chat.Protocol.RegistrationRequest
use chat.Protocol.LoginRequest
use chat.Protocol.LogoutRequest
use chat.Protocol.AccountsRequest
use chat.Protocol.SendTxtRequest
use chat.Protocol.RecvTxtRequest
use chat.Protocol.CorrespondentsRequest
use chat.Protocol.DeleteRequest

-- One method as a handler calls it: a registration with an accepted name and password, or a method
-- that makes no user.
pub data Effect (db : Database.Database) : Database.Database → Type 0 where
  registers :
      (a p : Str)
      → username_refused a ≡ false
      → password_refused p ≡ false
      → Effect db (Database.registration a p db).1
  other :
      {db' : Database.Database}
      → Step db db'
      → ((o : Str) → user_exists o db' ≡ true → user_exists o db ≡ true)
      → Effect db db'

pub data Effects (db : Database.Database) : Database.Database → Type 0 where
  none_yet : Effects db db
  more : {db1 db2 : Database.Database} → Effects db db1 → Effect db1 db2 → Effects db db2

-- Whenever the handler returns from its `send_msg`, `P` holds of the database, and the socket has `rs`
-- still to receive.
pub record Post (P : Database.Database → Type 0) (rs : List RecvResult)
    (o : Outcome (Status × World)) : Type 0 where
  pub at : (s : Status) (w : World) → o ≡ done (s, w) → P w.database_ × (w.recvs ≡ rs)

pub send_msg_keeps :
    (m : Message) (w : World) (s : Status) (w' : World)
    → send_msg m w ≡ done (s, w')
    → (w'.database_ ≡ w.database_) × (w'.recvs ≡ w.recvs)
unfolding send_msg
send_msg_keeps m w s w' e = ground arith

module _ {P : Database.Database → Type 0} {rs : List RecvResult} where
  pub Post-bind :
      {A : Type 0} (m : Outcome A) (f : A → Outcome (Status × World))
      → ((a : A) → m ≡ done a → Post P rs (f a))
      → Post P rs (m >>= f)
  Post-bind (done a) f k = k a refl
  Post-bind (fail s) f k = record { at = λ r w e. cc }
  Post-bind (halt h) f k = record { at = λ r w e. cc }

  pub Post-if :
      (b : Bool) (x y : Outcome (Status × World))
      → (b ≡ true → Post P rs x)
      → (b ≡ false → Post P rs y)
      → Post P rs (if b then x else y)
  Post-if true x y hx hy = hx refl
  Post-if false x y hx hy = hy refl

pub send_msg-Post :
    {P : Database.Database → Type 0} (m : Message) (w : World)
    → P w.database_
    → Post P w.recvs (send_msg m w)
send_msg-Post {P} m w h = record {
  at = λ s w' e. (subst P (sym (send_msg_keeps m w s w' e).0) h, (send_msg_keeps m w s w' e).1);
}

pub serialized-Post :
    {P : Database.Database → Type 0} (o : Outcome Message) (w : World)
    → P w.database_
    → Post P w.recvs (o >>= λ m. send_msg m w)
serialized-Post o w p = Post-bind o _ λ m e. send_msg-Post m w p

module _ {db : Database.Database} where
  one : {db' : Database.Database} → Effect db db' → Effects db db'
  one e = more none_yet e

  login-Effect : (t : ThreadId) (a p : Str) → Effect db (Database.login t a p db).1
  login-Effect t a p = other (login_step t a p) λ o h. unfold Database.login in ground arith

  logout-Effect : (t : ThreadId) → Effect db (Database.logout t db).1
  logout-Effect t = other (logout_step t) λ o h. unfold Database.logout in ground arith

  send-Effect :
      {db' : Database.Database} (t : ThreadId) (r txt : Str) (s : Status)
      → WellFormed db
      → Database.send_txt t r txt db ≡ done (s, db')
      → Effect db db'
  send-Effect t r txt s w e = other (send_step t r txt s e) λ o h.
      elim (send_txt_inv w t r txt s _ e) [
        | inl same ↦ ground arith
        | inr (me, e1, e2, g) ↦ ground (arith, user_exists-sent me r txt db e1 e2 o)
      ]

  delete-Effect :
      {db' : Database.Database} (order : List Str → List Str) (t : ThreadId) (s : Status)
      → WalksKeys order
      → WellFormed db
      → Database.delete_user order t db ≡ done (s, db')
      → Effect db db'
  delete-Effect order t s walks w e = other (delete_step order t s walks e) λ o h.
      elim (delete_user_inv order t _ _ s walks w e) [
        | inl same ↦ ground arith
        | inr (me, d) ↦ ground (arith, d.users o)
      ]

module _ (t : ThreadId) (body : Bytes) (w : World) (wf : WellFormed w.database_) where
  handle_registration-Post : Post (Effects w.database_) w.recvs (handle_registration body w)
  unfolding handle_registration
  handle_registration-Post = Post-bind (RegistrationRequest.deserialize body) _ (λ request e.
      Post-if _ _ _ (λ h. send_msg-Post _ _ none_yet)
        (λ name_ok.
          Post-if _ _ _ (λ h. send_msg-Post _ _ none_yet)
            (λ pass_ok. send_msg-Post _ _ (one (registers request.0 request.1 name_ok pass_ok)))))

  handle_login-Post : Post (Effects w.database_) w.recvs (handle_login t body w)
  unfolding handle_login
  handle_login-Post = Post-bind (LoginRequest.deserialize body) _ (λ request e.
      elim (Bool-cases (Database.is_logged_in t w.database_)) [
        | inl h ↦
            rw h (
              send_msg-Post _ _ (more (one (logout-Effect t)) (login-Effect t request.0 request.1)))
        | inr h ↦ rw h (send_msg-Post _ _ (one (login-Effect t request.0 request.1)))
      ])

  handle_logout-Post : Post (Effects w.database_) w.recvs (handle_logout t body w)
  unfolding handle_logout
  handle_logout-Post = Post-bind (LogoutRequest.deserialize body) _ (λ request e.
      Post-if (not (Database.is_logged_in t w.database_)) _ _ (λ h. send_msg-Post _ _ none_yet)
        (λ h. send_msg-Post _ _ (one (logout-Effect t))))

  handle_list_accounts-Post : Post (Effects w.database_) w.recvs (handle_list_accounts t body w)
  unfolding handle_list_accounts
  handle_list_accounts-Post = Post-bind (AccountsRequest.deserialize body) _ (λ request e.
      Post-if (not (Database.is_logged_in t w.database_)) _ _ (λ h. serialized-Post _ _ none_yet)
        (λ h. serialized-Post _ _ none_yet))

  handle_send_txt-Post : Post (Effects w.database_) w.recvs (handle_send_txt t body w)
  unfolding handle_send_txt
  handle_send_txt-Post = Post-bind (SendTxtRequest.deserialize body) _ (λ request e.
      Post-if (not (Database.is_logged_in t w.database_)) _ _ (λ h. send_msg-Post _ _ none_yet)
        (λ h.
          Post-bind (Database.send_txt t request.0 request.1 w.database_) _
            (λ r q. send_msg-Post _ _ (one (send-Effect t request.0 request.1 r.0 wf q)))))

  handle_recv_txt-Post : Post (Effects w.database_) w.recvs (handle_recv_txt t body w)
  unfolding handle_recv_txt
  handle_recv_txt-Post = Post-bind (RecvTxtRequest.deserialize body) _ (λ sender e.
      Post-if (not (Database.is_logged_in t w.database_)) _ _ (λ h. serialized-Post _ _ none_yet)
        (λ h.
          Post-bind (Database.recv_txt t sender (record { texts_ = [] }) w.database_) _
            (λ r q. serialized-Post _ _ none_yet)))

  module _ (order : List Str → List Str) (walks : WalksKeys order) where
    handle_correspondents-Post :
        Post (Effects w.database_) w.recvs (handle_correspondents order t body w)
    unfolding handle_correspondents
    handle_correspondents-Post = Post-bind (CorrespondentsRequest.deserialize body) _ (λ request e.
        Post-if (not (Database.is_logged_in t w.database_)) _ _ (λ h. serialized-Post _ _ none_yet)
          (λ h.
            Post-bind (Database.get_correspondents order t [] w.database_) _
              (λ r q. serialized-Post _ _ none_yet)))

    handle_delete-Post : Post (Effects w.database_) w.recvs (handle_delete order t body w)
    unfolding handle_delete
    handle_delete-Post = Post-bind (DeleteRequest.deserialize body) _ (λ request e.
        Post-if (not (Database.is_logged_in t w.database_)) _ _ (λ h. send_msg-Post _ _ none_yet)
          (λ h.
            Post-bind (Database.delete_user order t w.database_) _
              (λ r q. send_msg-Post _ _ (one (delete-Effect order t r.0 walks wf q)))))

    handle_invalid_type-Post : Post (Effects w.database_) w.recvs (handle_invalid_type w)
    unfolding handle_invalid_type
    handle_invalid_type-Post = send_msg-Post _ _ none_yet

    -- Whatever the type and the body of a message are, a handler that returns has run methods of the
    -- database, and has registered no name or password that the rules refuse.
    pub dispatch-Effects :
        (type : ℕ) → Post (Effects w.database_) w.recvs (dispatch order t type body w)
    unfolding dispatch
    dispatch-Effects type =
        Post-if (nat_eq type 101) _ _ (λ h. handle_registration-Post)
          (λ h.
            Post-if (nat_eq type 102) _ _ (λ h. handle_login-Post)
              (λ h.
                Post-if (nat_eq type 103) _ _ (λ h. handle_logout-Post)
                  (λ h.
                    Post-if (nat_eq type 104) _ _ (λ h. handle_list_accounts-Post)
                      (λ h.
                        Post-if (nat_eq type 105) _ _ (λ h. handle_send_txt-Post)
                          (λ h.
                            Post-if (nat_eq type 106) _ _ (λ h. handle_recv_txt-Post)
                              (λ h.
                                Post-if (nat_eq type 107) _ _ (λ h. handle_correspondents-Post)
                                  (λ h.
                                    Post-if (nat_eq type 108) _ _ (λ h. handle_delete-Post)
                                      (λ h. handle_invalid_type-Post))))))))

Effect-Step : {db db' : Database.Database} → Effect db db' → Step db db'
Effect-Step (registers a p n q) = registration_step a p
Effect-Step (other s n) = s

pub Effects-Reach : {db db' : Database.Database} → Effects db db' → Reach db db'
Effects-Reach none_yet = here
Effects-Reach (more es e) = next (Effects-Reach es) (Effect-Step e)

-- Every user's name is one that registration accepts.
abbrev pub NamesAccepted : Database.Database → Type 0
NamesAccepted db = (a : Str) → user_exists a db ≡ true → username_refused a ≡ false

Effect-NamesAccepted :
    {db db' : Database.Database} → Effect db db' → NamesAccepted db → NamesAccepted db'
Effect-NamesAccepted (other s n) k o h = k o (n o h)
Effect-NamesAccepted {db} (registers a p name_ok pass_ok) k o h = elim (Bool-cases (str_eq a o)) [
  | inl same ↦ ground (arith, str_eq_iff a o)
  | inr differ ↦ k o (
      unfold Database.registration in
      ground (
        arith,
        lookup-insert str_lt a o (record { username_ = a; password_ = p; chats_ = [] }) db.users_,
      ))
]

pub Effects-NamesAccepted :
    {db db' : Database.Database} → Effects db db' → NamesAccepted db → NamesAccepted db'
Effects-NamesAccepted none_yet k = k
Effects-NamesAccepted (more es e) k = Effect-NamesAccepted e (Effects-NamesAccepted es k)

-- A message of any type and body whose handler returns leaves a well-formed database well formed,
-- and if every user had a name that registration accepts, every user still has one.
pub dispatch-WellFormed :
    (order : List Str → List Str) (t : ThreadId) (type : ℕ) (body : Bytes) (w w' : World)
    (s : Status)
    → WalksKeys order
    → WellFormed w.database_
    → NamesAccepted w.database_
    → dispatch order t type body w ≡ done (s, w')
    → WellFormed w'.database_ × NamesAccepted w'.database_
dispatch-WellFormed order t type body w w' s walks wf names e =
    let es = ((dispatch-Effects t body w wf order walks type).at s w' e).0 in
    (Reach-WellFormed wf (Effects-Reach es), Effects-NamesAccepted es names)
