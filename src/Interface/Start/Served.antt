-- ===== src/Interface/Start/Served.antt =====
-- The client of the interface in front of the program's own server: what each method gives by the
-- promises of the handlers. Where the server halts or fails, the connection closes.
use chat.Common.{
  ℕ, ◌+◌, ◌*◌, ◌<◌, ◌^◌, ◌≡◌, refl, sym, true, false, List, [], length, arith, ltb, if◌then◌else◌,
  Str, str_Key, nat_Key, lookup, Status, Outcome, done, fail, halt, Ends, Ends-done, Ends-bind,
  Ends-if, Ends-option, Ends-map, Within, Within-done, Within-map, inl, inr, if_cases, subst,
}
use chat.Chat.{Chat}
use chat.Protocol.Header.{StatusCode, status_code}
use chat.Protocol.Layout.Strings.{sum, lengths}
use chat.Protocol.Requests.{Request}
use chat.Protocol.Responses.{Response}
use chat.Database
use chat.Database.{Database, ThreadId, user_at}
use chat.Database.Accounts.{login_effect}
use chat.Server.Service.{no_texts_at_all, respond, relogin, code_or}
use chat.Interface.State.{ClientCalls}
use chat.Interface.Cases.{is_ok_code}
use chat.Interface.Start.Diagram.{Guarded}

-- What a client reads of a response: its status code, and what stands behind an OK.
abbrev pub code_of : Response → ℕ
code_of (Response.registration c) = c
code_of (Response.login c) = c
code_of (Response.logout c) = c
code_of (Response.send_txt c) = c
code_of (Response.delete c) = c
code_of (Response.no_accounts c) = c
code_of (Response.no_correspondents c) = c
code_of (Response.no_texts c) = c
code_of r = 0

abbrev pub names_of : Response → List Str → List Str
names_of (Response.accounts us) old = us
names_of (Response.correspondents us) old = us
names_of r old = old

abbrev pub chat_of : Response → Chat → Chat
chat_of (Response.recv_txt c) old = c
chat_of r old = old

abbrev pub tell : ℕ → Database → Outcome (Response × Database) → Outcome (Status × ℕ × Database)
tell n db (done r) = done (Status.ok, code_of r.0, r.1)
tell n db (fail s) = done (Status.closed_connection, n, db)
tell n db (halt h) = done (Status.closed_connection, n, db)

abbrev pub tell_chat :
    ℕ → Chat → Database → Outcome (Response × Database) → Outcome (Status × ℕ × Chat × Database)
tell_chat n c db (done r) = done (Status.ok, code_of r.0, chat_of r.0 c, r.1)
tell_chat n c db (fail s) = done (Status.closed_connection, n, c, db)
tell_chat n c db (halt h) = done (Status.closed_connection, n, c, db)

-- Names that do not fit a message are written past its block, which is a fault of the server.
abbrev pub fitted :
    ℕ → List Str → Database → ℕ → List Str → Database → Status × ℕ × List Str × Database
fitted n ns db n' ns' db' =
    if ltb (8 + 4 * length ns' + sum (lengths ns')) (2 ^ 32)
    then (Status.ok, n', ns', db')
    else (Status.closed_connection, n, ns, db)

abbrev pub tell_names :
    ℕ
    → List Str
    → Database
    → Outcome (Response × Database)
    → Outcome (Status × ℕ × List Str × Database)
tell_names n ns db (done r) = done (fitted n ns db (code_of r.0) (names_of r.0 ns) r.1)
tell_names n ns db (fail s) = done (Status.closed_connection, n, ns, db)
tell_names n ns db (halt h) = done (Status.closed_connection, n, ns, db)

module _ (order : List Str → List Str) (t : ThreadId) where
  abbrev pub served : ClientCalls Database
  served = record {
    connect_server = λ n db. done (Status.ok, db);
    login = λ u p n db. tell n db (respond order t (Request.login u p) db);
    registration = λ u p n db. tell n db (respond order t (Request.registration u p) db);
    logout = λ n db. tell n db (respond order t Request.logout db);
    list_accounts = λ p n ns db. tell_names n ns db (respond order t (Request.accounts p) db);
    send_txt = λ u txt n db. tell n db (respond order t (Request.send_txt u txt) db);
    recv_txt = λ u n c db. tell_chat n c db (respond order t (Request.recv_txt u) db);
    recv_correspondents = λ n ns db. tell_names n ns db (respond order t Request.correspondents db);
    delete_account = λ n db. tell n db (respond order t Request.delete db);
  }

  abbrev pub LoggedIn : Database → Type 0
  LoggedIn db = Database.is_logged_in t db ≡ true

  module _ {P : Status × ℕ × Database → Type 0} where
    tell-Within :
        (n : ℕ) (db : Database) (o : Outcome (Response × Database))
        → Ends (λ (r : Response × Database). P (Status.ok, code_of r.0, r.1)) o
        → P (Status.closed_connection, n, db)
        → Within P (tell n db o)
    tell-Within n db (done r) e p = Within-done _ (e.at r refl)
    tell-Within n db (fail s) e p = Within-done _ p
    tell-Within n db (halt h) e p = Within-done _ p

  module _ (db : Database) where
    send_txt-LoggedIn :
        (r txt : Str)
        → LoggedIn db
        → Ends (λ (r : Status × Database). LoggedIn r.1) (Database.send_txt t r txt db)
    unfolding Database.send_txt Database.is_logged_in
    send_txt-LoggedIn r txt h = Ends-option (lookup t db.threads_) _ _ (Ends-done _ h) λ me.
        Ends-bind {Q = λ u. Unit {0}} (user_at me db) _ (record { at = λ a e. tt })
          λ u q. Ends-option (lookup r db.users_) _ _ (Ends-done _ h) λ v. Ends-done _ h

    login-LoggedIn :
        (u p : Str) → (Database.login t u p db).0 ≡ Status.ok → LoggedIn (Database.login t u p db).1
    unfolding Database.is_logged_in
    login-LoggedIn u p ok = elim (login_effect t u p db) [
      | inl (e, threads, users, history) ↦ ground (arith, threads t)
      | inr e ↦ absurd (ground (arith, e, ok))
    ]

    login_code :
        (s : Status)
        → is_ok_code (status_code (code_or StatusCode.invalid_credentials s)) ≡ true
        → s ≡ Status.ok
    login_code Status.ok e = refl
    login_code Status.error e = absurd (cc)
    login_code Status.send_error e = absurd (cc)
    login_code Status.receive_error e = absurd (cc)
    login_code Status.closed_connection e = absurd (cc)
    login_code Status.header_error e = absurd (cc)
    login_code Status.body_error e = absurd (cc)

  -- A connection that the server has logged in, with names that fit if they were accepted.
  abbrev Listed : Status × ℕ × List Str × Database → Type 0
  Listed r = LoggedIn r.3 × (r.0 ≡ Status.ok → is_ok_code r.1 ≡ true → 2 + length r.2 < 2 ^ 32)

  module _ (n : ℕ) (ns : List Str) (db : Database) (here : LoggedIn db) where
    fitted-Listed : (n' : ℕ) (ns' : List Str) → Listed (fitted n ns db n' ns' db)
    fitted-Listed n' ns' =
        if_cases Listed (ltb (8 + 4 * length ns' + sum (lengths ns')) (2 ^ 32)) _ _
          (λ small. (here, λ ok e. ground (arith, small))) λ big. (here, λ ok e. absurd (cc))

    tell_names-Listed :
        (o : Outcome (Response × Database))
        → Ends (λ (r : Response × Database). r.1 ≡ db) o
        → Within Listed (tell_names n ns db o)
    tell_names-Listed (done r) e = Within-done _ (
        subst (λ d. Listed (fitted n ns db (code_of r.0) (names_of r.0 ns) d)) (sym (e.at r refl))
          (fitted-Listed (code_of r.0) (names_of r.0 ns)))
    tell_names-Listed (fail s) e = Within-done _ (here, λ ok f. absurd (cc))
    tell_names-Listed (halt h) e = Within-done _ (here, λ ok f. absurd (cc))

  module _ (n : ℕ) (c : Chat) (db : Database) (here : LoggedIn db) where
    tell_chat-LoggedIn :
        (o : Outcome (Response × Database))
        → Ends (λ (r : Response × Database). r.1 ≡ db) o
        → Within (λ (r : Status × ℕ × Chat × Database). LoggedIn r.3) (tell_chat n c db o)
    tell_chat-LoggedIn (done r) e = Within-done _ (subst LoggedIn (sym (e.at r refl)) here)
    tell_chat-LoggedIn (fail s) e = Within-done _ here
    tell_chat-LoggedIn (halt h) e = Within-done _ here

  module _ (db : Database) (here : LoggedIn db) where
    -- What a read leaves behind, and what a text does.
    accounts-Ends :
        (p : Str)
        → Ends (λ (r : Response × Database). r.1 ≡ db) (respond order t (Request.accounts p) db)
    unfolding respond
    accounts-Ends p = Ends-if _ _ _ (Ends-done _ refl) (Ends-done _ refl)

    recv_txt-Ends :
        (u : Str)
        → Ends (λ (r : Response × Database). r.1 ≡ db) (respond order t (Request.recv_txt u) db)
    unfolding respond
    recv_txt-Ends u =
        Ends-if _ _ _
          (Ends-bind {Q = λ c. Unit {0}} (Database.recv_txt t u no_texts_at_all db) _
            (record { at = λ a e. tt }) λ c q. Ends-done _ refl)
          (Ends-done _ refl)

    correspondents-Ends :
        Ends (λ (r : Response × Database). r.1 ≡ db) (respond order t Request.correspondents db)
    unfolding respond
    correspondents-Ends =
        Ends-if _ _ _
          (Ends-bind {Q = λ c. Unit {0}} (Database.get_correspondents order t [] db) _
            (record { at = λ a e. tt }) λ c q. Ends-done _ refl)
          (Ends-done _ refl)

    send_txt-Ends :
        (u txt : Str)
        → Ends
            (λ (r : Response × Database). LoggedIn r.1)
            (respond order t (Request.send_txt u txt) db)
    unfolding respond
    send_txt-Ends u txt =
        Ends-if _ _ _
          (Ends-bind (Database.send_txt t u txt db) _ (send_txt-LoggedIn db u txt here)
            λ r q. Ends-done _ q)
          (Ends-done _ here)

    answered_ok : (db' : Database) → is_ok_code (status_code StatusCode.ok) ≡ false → LoggedIn db'
    answered_ok db' e = absurd (cc)

    -- A logout and a deletion that return are accepted.
    abbrev Left : Response × Database → Type 0
    Left r = is_ok_code (code_of r.0) ≡ false → LoggedIn r.1

    logout-Ends : Ends Left (respond order t Request.logout db)
    unfolding respond
    logout-Ends = Ends-if _ _ _ (Ends-done _ (answered_ok _)) (Ends-done _ λ e. here)

    delete-Ends : Ends Left (respond order t Request.delete db)
    unfolding respond
    delete-Ends =
        Ends-if _ _ _
          (Ends-bind {Q = λ c. Unit {0}} (Database.delete_user order t db) _
            (record { at = λ a e. tt }) λ c q. Ends-done _ (answered_ok _))
          (Ends-done _ λ e. here)

  login-Ends :
      (u p : Str) (db : Database)
      → Ends
          (λ (r : Response × Database). is_ok_code (code_of r.0) ≡ true → LoggedIn r.1)
          (respond order t (Request.login u p) db)
  unfolding respond
  login-Ends u p db = Ends-done _ λ e.
      login-LoggedIn (relogin order t db) u p
        (login_code db (Database.login t u p (relogin order t db)).0 e)

  -- The program's server keeps what the interface needs of its client.
  pub served-Guarded : Guarded LoggedIn served
  served-Guarded = record {
    connect_server_returns = λ n db. Within-done _ tt;
    login_In = λ u p n db.
        tell-Within n db _ (Ends-map (λ r k s e. k e) (login-Ends u p db)) λ s e. absurd (cc);
    registration_returns = λ u p n db. tell-Within n db _ (record { at = λ r e. tt }) tt;
    logout_In = λ n db h. tell-Within n db _ (logout-Ends db h) λ e. h;
    list_accounts_In = λ p n ns db h.
        Within-map (λ r k. k.0) (tell_names-Listed n ns db h _ (accounts-Ends db h p));
    send_txt_In = λ u txt n db h. tell-Within n db _ (send_txt-Ends db h u txt) h;
    recv_txt_In = λ u n c db h. tell_chat-LoggedIn n c db h _ (recv_txt-Ends db h u);
    recv_correspondents_In = λ n ns db h. tell_names-Listed n ns db h _ (correspondents-Ends db h);
    delete_account_In = λ n db h. tell-Within n db _ (delete-Ends db h) λ e. h;
  }
