-- ===== src/Server/Service.antt =====
-- What the server promises for each request: the response and the database behind it, with no bytes
-- in sight; and that the handlers keep the promise.
use chat.Common.{
  ◌≡◌, refl, Bool, true, false, List, [], if◌then◌else◌, Str, Status, Outcome, done, ◌>>=◌, not,
  Ends, Ends-done, Ends-bind, Ends-if, Ends-option, lookup, is_some, nat_Key, str_Key, answered-if,
  answered_unless, answered-bind,
}
use chat.Chat.{Chat}
use chat.Protocol.Header.{StatusCode, status_code, msgtype}
use chat.Protocol.Requests.{Request, encode, kind, encode-Decodes}
use chat.Protocol.Requests
use chat.Protocol.Responses.{Response}
use chat.Protocol.Responses
use chat.Protocol.RecvTxtResponse
use chat.Database
use chat.Database.{Database, ThreadId}
use chat.Server.{
  is_ok, username_refused, password_refused, handle_registration, handle_login, handle_logout,
  handle_list_accounts, handle_send_txt, handle_recv_txt, handle_correspondents, handle_delete,
  dispatch,
}
use chat.Server.Transport.{World, send_msg}

abbrev pub no_texts_at_all : Chat
no_texts_at_all = record { texts_ = [] }

-- The code that an operation of the database is reported with.
abbrev pub code_or : StatusCode → Status → StatusCode
code_or c s = if is_ok s then StatusCode.ok else c

module _ (order : List Str → List Str) (t : ThreadId) where
  -- A thread that is logged in as nobody is told so, and changes nothing.
  abbrev authorized :
      Response → Database → Outcome (Response × Database) → Outcome (Response × Database)
  authorized refusal db k = if Database.is_logged_in t db then k else done (refusal, db)

  abbrev pub relogin : Database → Database
  relogin db = if Database.is_logged_in t db then (Database.logout t db).1 else db

  unfoldable pub respond : Request → Database → Outcome (Response × Database)
  respond (Request.registration u p) db =
      if username_refused u
      then done (Response.registration (status_code StatusCode.username_invalid), db)
      else if password_refused p
      then done (Response.registration (status_code StatusCode.password_invalid), db)
      else let r = Database.registration u p db in
        done (Response.registration (status_code (code_or StatusCode.user_exists r.0)), r.1)
  respond (Request.login u p) db =
      let r = Database.login t u p (relogin db) in
      done (Response.login (status_code (code_or StatusCode.invalid_credentials r.0)), r.1)
  respond Request.logout db =
      authorized (Response.logout (status_code StatusCode.unauthorized)) db
        (done (Response.logout (status_code StatusCode.ok), (Database.logout t db).1))
  respond (Request.accounts p) db =
      authorized (Response.no_accounts (status_code StatusCode.unauthorized)) db
        (done (Response.accounts (Database.get_usernames p db), db))
  respond (Request.send_txt r txt) db =
      authorized (Response.send_txt (status_code StatusCode.unauthorized)) db (do
        s ← Database.send_txt t r txt db
        done (Response.send_txt (status_code (code_or StatusCode.user_noexist s.0)), s.1))
  respond (Request.recv_txt u) db =
      authorized (Response.no_texts (status_code StatusCode.unauthorized)) db (do
        c ← Database.recv_txt t u no_texts_at_all db
        done (
          if is_ok c.0
              then Response.recv_txt c.1
              else Response.no_texts (status_code StatusCode.user_noexist),
          db,
        ))
  respond Request.correspondents db =
      authorized (Response.no_correspondents (status_code StatusCode.unauthorized)) db
        (do us ← Database.get_correspondents order t [] db; done (Response.correspondents us.1, db))
  respond Request.delete db =
      authorized (Response.delete (status_code StatusCode.unauthorized)) db (do
        d ← Database.delete_user order t db
        done (Response.delete (status_code StatusCode.ok), d.1))

-- A chat that is not found is left as it was passed.
recv_txt_other :
    (t : ThreadId) (u : Str) (c : Chat) (db : Database)
    → Ends (λ (r : Status × Chat). is_ok r.0 ≡ false → r.1 ≡ c) (Database.recv_txt t u c db)
unfolding Database.recv_txt
recv_txt_other t u c db = Ends-option (lookup t db.threads_) _ _ (Ends-done _ (λ e. refl)) λ me.
    Ends-bind {Q = λ u'. Unit {0}} (Database.user_at me db) _ (record { at = λ a e. tt })
      λ recipient q. Ends-if (not (is_some (lookup u db.users_))) _ _ (Ends-done _ (λ e. refl)) (
        Ends-option (lookup u recipient.chats_) _ _ (Ends-done _ (λ e. absurd (cc)))
          λ stored. Ends-done _ (λ e. absurd (cc)))

module _ (order : List Str → List Str) (t : ThreadId) (w : World) where
  -- The response as the server forms it, sent with the database at hand.
  abbrev pub reply : Response × Database → Outcome (Status × World)
  reply r = do
    m ← Responses.written [] no_texts_at_all r.0
    send_msg m (record w { database_ = r.1 })

  abbrev Served : Request → Type 0
  Served q =
      dispatch order t (msgtype (kind q)) (encode q).body_ w
      ≡ (respond order t q w.database_ >>= reply)

  registration-Served :
      (u p : Str) → Requests.Fits (Request.registration u p) → Served (Request.registration u p)
  unfolding dispatch handle_registration respond
  registration-Served u p h = rw (encode-Decodes (Request.registration u p) h).0 (
      answered-if reply (username_refused u) _ _ _ _ refl
        (answered-if reply (password_refused p) _ _ _ _ refl refl))

  login-Served : (u p : Str) → Requests.Fits (Request.login u p) → Served (Request.login u p)
  unfolding dispatch handle_login respond
  login-Served u p h = rw (encode-Decodes (Request.login u p) h).0 refl

  logout-Served : Served Request.logout
  unfolding dispatch handle_logout respond
  logout-Served =
      rw (encode-Decodes Request.logout tt).0
        (answered_unless reply (Database.is_logged_in t w.database_) _ _ _ _ refl refl)

  accounts-Served : (p : Str) → Requests.Fits (Request.accounts p) → Served (Request.accounts p)
  unfolding dispatch handle_list_accounts respond
  accounts-Served p h =
      rw (encode-Decodes (Request.accounts p) h).0
        (answered_unless reply (Database.is_logged_in t w.database_) _ _ _ _ refl refl)

  send_txt-Served :
      (r txt : Str) → Requests.Fits (Request.send_txt r txt) → Served (Request.send_txt r txt)
  unfolding dispatch handle_send_txt respond
  send_txt-Served r txt h = rw (encode-Decodes (Request.send_txt r txt) h).0 (
      answered_unless reply (Database.is_logged_in t w.database_) _ _ _ _ refl
        (answered-bind reply (Database.send_txt t r txt w.database_) _ _ λ s e. refl))

  texts_reply :
      (b : Bool) (c : Chat)
      → (b ≡ false → c ≡ no_texts_at_all)
      → (RecvTxtResponse.serialize
            (status_code (if b then StatusCode.ok else StatusCode.user_noexist))
            c
          >>= λ m. send_msg m w)
        ≡ reply (
          if b
              then Response.recv_txt c
              else Response.no_texts (status_code StatusCode.user_noexist),
          w.database_,
        )
  texts_reply true c h = refl
  texts_reply false c h = rw (h refl) refl

  recv_txt-Served : (u : Str) → Requests.Fits (Request.recv_txt u) → Served (Request.recv_txt u)
  unfolding dispatch handle_recv_txt respond
  recv_txt-Served u h = rw (encode-Decodes (Request.recv_txt u) h).0 (
      answered_unless reply (Database.is_logged_in t w.database_) _ _ _ _ refl (
        answered-bind reply (Database.recv_txt t u no_texts_at_all w.database_) _ _ λ c e.
          texts_reply (is_ok c.0) c.1 ((recv_txt_other t u no_texts_at_all w.database_).at c e)))

  correspondents-Served : Served Request.correspondents
  unfolding dispatch handle_correspondents respond
  correspondents-Served = rw (encode-Decodes Request.correspondents tt).0 (
      answered_unless reply (Database.is_logged_in t w.database_) _ _ _ _ refl
        (answered-bind reply (Database.get_correspondents order t [] w.database_) _ _ λ c e. refl))

  delete-Served : Served Request.delete
  unfolding dispatch handle_delete respond
  delete-Served = rw (encode-Decodes Request.delete tt).0 (
      answered_unless reply (Database.is_logged_in t w.database_) _ _ _ _ refl
        (answered-bind reply (Database.delete_user order t w.database_) _ _ λ c e. refl))

  pub dispatch_responds : (q : Request) → Requests.Fits q → Served q
  dispatch_responds (Request.registration u p) h = registration-Served u p h
  dispatch_responds (Request.login u p) h = login-Served u p h
  dispatch_responds (Request.send_txt r txt) h = send_txt-Served r txt h
  dispatch_responds (Request.accounts p) h = accounts-Served p h
  dispatch_responds (Request.recv_txt u) h = recv_txt-Served u h
  dispatch_responds Request.logout h = logout-Served
  dispatch_responds Request.correspondents h = correspondents-Served
  dispatch_responds Request.delete h = delete-Served
