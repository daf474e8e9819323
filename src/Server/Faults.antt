-- ===== src/Server/Faults.antt =====
-- Which faults a handler can run into: none, if every thread acts for a user who exists, and no user
-- has a chat with himself.
use chat.Common.{
  ℕ, ◌≡◌, ◌≢◌, refl, true, false, some, List, [], arith, Str, nat_Key, str_Key, lookup,
  Option-cases, inl, inr, Status, done, halt, Halt, waiting, HaltsIn, HaltsIn-done, HaltsIn-never,
  if◌then◌else◌,
}
use chat.Buffer.{Bytes}
use chat.Chat.{Chat}
use chat.Protocol.Header.{StatusCode, status_code}
use chat.Protocol.Responses
use chat.Protocol.Responses.{Response}
use chat.Protocol.RecvTxtResponse
use chat.Database
use chat.Database.{Database, ThreadId, user_at, send_txt, recv_txt, get_correspondents, delete_user}
use chat.Database.View.{user_exists, has_chat}
use chat.Database.Invariant.{WellFormed}
use chat.Database.Deletion.{WalksKeys, delete_user-Deleted}
use chat.Server.{is_ok, dispatch}
use chat.Server.Transport.{World}
use chat.Server.Service.{no_texts_at_all}
use chat.Server.Halts.{Allowed, dispatch-HaltsIn}

-- A thread that acts for someone acts for a user who exists.
abbrev pub Attended : Database → Type 0
Attended db = (t : ThreadId) (a : Str) → lookup t db.threads_ ≡ some a → user_exists a db ≡ true

-- And he has no chat with himself.
pub record Settled (db : Database) : Type 0 where
  pub acting_exists : Attended db
  pub no_self_chat : (a : Str) → has_chat a a db ≡ false

module _ (t : ThreadId) (db : Database) (attended : Attended db) where
  pub send_txt-ne-halt : (r txt : Str) (h : Halt) → send_txt t r txt db ≢ halt h
  unfolding send_txt user_at
  send_txt-ne-halt r txt h e = elim (Option-cases (lookup t db.threads_)) [
    | inl n ↦ ground arith
    | inr (a, s) ↦ ground (arith, attended t a)
  ]

  pub recv_txt-ne-halt : (o : Str) (c : Chat) (h : Halt) → recv_txt t o c db ≢ halt h
  unfolding recv_txt user_at
  recv_txt-ne-halt o c h e = elim (Option-cases (lookup t db.threads_)) [
    | inl n ↦ ground arith
    | inr (a, s) ↦ ground (arith, attended t a)
  ]

  module _ (order : List Str → List Str) where
    pub get_correspondents-ne-halt :
        (ns : List Str) (h : Halt) → get_correspondents order t ns db ≢ halt h
    unfolding get_correspondents user_at
    get_correspondents-ne-halt ns h e = elim (Option-cases (lookup t db.threads_)) [
      | inl n ↦ ground arith
      | inr (a, s) ↦ ground (arith, attended t a)
    ]

    delete_user-ne-halt :
        (h : Halt) → Settled db → WalksKeys order → WellFormed db → delete_user order t db ≢ halt h
    delete_user-ne-halt h settled walks w e = elim (Option-cases (lookup t db.threads_)) [
      | inl n ↦ unfold delete_user in ground arith
      | inr (a, s) ↦ elim (Option-cases (lookup a db.users_)) [
        | inl n ↦ absurd (ground (arith, attended t a))
        | inr (u, f) ↦
            let (db', q, d) =
              delete_user-Deleted order walks t a u db w s f (settled.no_self_chat a) in
            absurd (cc (e, q))
      ]
    ]

-- What thread `t` can be sent is shorter than 2 ^ 32 bytes: every listing of the accounts, every
-- chat of its user, and the list of his correspondents.
pub record Sendable (order : List Str → List Str) (t : ThreadId) (db : Database) : Type 0 where
  pub accounts_fit : (p : Str) → Responses.Fits (Response.accounts (Database.get_usernames p db))
  pub texts_fit :
      (u : Str) (c : Chat)
      → recv_txt t u no_texts_at_all db ≡ done (Status.ok, c)
      → Responses.Fits (Response.recv_txt c)
  pub correspondents_fit :
      (r : Status × List Str)
      → get_correspondents order t [] db ≡ done r
      → Responses.Fits (Response.correspondents r.1)

module _ (order : List Str → List Str) (t : ThreadId) (db : Database) (walks : WalksKeys order)
    (wf : WellFormed db) (settled : Settled db) (small : Sendable order t db) where
  written-HaltsIn :
      (r : Response)
      → Responses.Fits r
      → HaltsIn (λ h. h ≡ waiting) (Responses.written [] no_texts_at_all r)
  written-HaltsIn r f = HaltsIn-done _ _ (Responses.written-Fits [] no_texts_at_all r f)

  noexist-Fits : Responses.Fits (Response.no_texts (status_code StatusCode.user_noexist))
  noexist-Fits = (omega arith, λ e. omega (arith, e))

  noexist_written :
      (c : Chat)
      → HaltsIn
          (λ h. h ≡ waiting)
          (RecvTxtResponse.serialize (status_code StatusCode.user_noexist) c)
  unfolding RecvTxtResponse.serialize
  noexist_written c = HaltsIn-done _ _ (
      Responses.written-Fits [] c (Response.no_texts (status_code StatusCode.user_noexist))
        noexist-Fits)

  texts_written :
      (u : Str) (s : Status) (c : Chat)
      → recv_txt t u no_texts_at_all db ≡ done (s, c)
      → HaltsIn
          (λ h. h ≡ waiting)
          (RecvTxtResponse.serialize
            (status_code (if is_ok s then StatusCode.ok else StatusCode.user_noexist))
            c)
  unfolding RecvTxtResponse.serialize
  texts_written u Status.ok c e = written-HaltsIn (Response.recv_txt c) (small.texts_fit u c e)
  texts_written u Status.error c e = noexist_written c
  texts_written u Status.send_error c e = noexist_written c
  texts_written u Status.receive_error c e = noexist_written c
  texts_written u Status.closed_connection c e = noexist_written c
  texts_written u Status.header_error c e = noexist_written c
  texts_written u Status.body_error c e = noexist_written c

  allowed : Allowed (λ h. h ≡ waiting) order t db
  allowed = record {
    waits = refl;
    texts_sent = λ r txt. HaltsIn-never _ (send_txt-ne-halt t db settled.acting_exists r txt);
    texts_read =
        λ u. HaltsIn-never _ (recv_txt-ne-halt t db settled.acting_exists u no_texts_at_all);
    correspondents_listed =
        HaltsIn-never _ (get_correspondents-ne-halt t db settled.acting_exists order []);
    user_deleted =
        HaltsIn-never _
          λ h. delete_user-ne-halt t db settled.acting_exists order h settled walks wf;
    accounts_written = λ p. written-HaltsIn (Response.accounts _) (small.accounts_fit p);
    texts_written = λ u r e. texts_written u r.0 r.1 e;
    correspondents_written =
        λ r e. written-HaltsIn (Response.correspondents r.1) (small.correspondents_fit r e);
  }

-- In a well-formed database in which every thread acts for a user who exists and no user has a chat
-- with himself, and from which the thread can be sent less than 2 ^ 32 bytes at a time, a handler
-- halts for no message of any type and body, unless it waits for `send`: it reads outside no buffer,
-- writes outside no block, throws no exception, and uses no erased entry.
pub dispatch-ne-halt :
    (order : List Str → List Str) (t : ThreadId) (type : ℕ) (body : Bytes) (w : World) (h : Halt)
    → WalksKeys order
    → WellFormed w.database_
    → Settled w.database_
    → Sendable order t w.database_
    → h ≢ waiting
    → dispatch order t type body w ≢ halt h
dispatch-ne-halt order t type body w h walks wf settled small other e = other (
    (dispatch-HaltsIn (λ h. h ≡ waiting) order t body w
        (allowed order t w.database_ walks wf settled small) type).only
      h e)
