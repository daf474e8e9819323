-- ===== src/Server/Interleaving/Serves.antt =====
-- Every handler of src/server/server.cc among the methods of other threads.
use chat.Common.{
  ◌≡◌, refl, sym, ap, ◌∙◌, Bool, true, false, if◌then◌else◌, List, Str, arith, is_some, nat_Key,
  inl, inr, List, [], answered-bind, Outcome, done, done_inj,
}
use chat.Protocol.Header.{StatusCode, status_code}
use chat.Protocol.Requests.{Request}
use chat.Protocol.Responses.{Response}
use chat.Database
use chat.Database.{Database, ThreadId}
use chat.Server.{is_ok, username_refused, password_refused}
use chat.Server.Service.{respond, code_or, no_texts_at_all}
use chat.Database.Methods.{Method, perform}
use chat.Server.Interleaving.{Program, log_in, said, program, Others, no_more, Runs}
use chat.Server.Interleaving.Commute.{without}
use chat.Server.Interleaving.Other.{Others-lookup, Others-append, Others-without}
use chat.Server.Interleaving.Atomic.{
  Refuses, AtOnce, served, Runs-answer, Runs-call, one_call, last_call, Runs-check, authorized_call,
}

pub logout-without :
    (t : ThreadId) (db : Database)
    → Database.is_logged_in t db ≡ true
    → (Database.logout t db).1 ≡ without t db
unfolding Database.logout Database.is_logged_in
logout-without t db h = ground arith

-- What the handlers that test whether the thread is logged in refuse with, call and answer.
module _ (order : List Str → List Str) (t : ThreadId) where
  pub logout-Refuses :
      Refuses order t Request.logout
        (Response.logout (status_code StatusCode.unauthorized))
        Method.logout
        (λ s. Response.logout (status_code StatusCode.ok))
  unfolding respond perform
  logout-Refuses d = refl

  pub accounts-Refuses :
      (p : Str)
      → Refuses order t
          (Request.accounts p)
          (Response.no_accounts (status_code StatusCode.unauthorized))
          (Method.get_usernames p)
          Response.accounts
  unfolding respond perform
  accounts-Refuses p d = refl

  pub send_txt-Refuses :
      (r txt : Str)
      → Refuses order t
          (Request.send_txt r txt)
          (Response.send_txt (status_code StatusCode.unauthorized))
          (Method.send_txt r txt)
          (λ s. Response.send_txt (status_code (code_or StatusCode.user_noexist s)))
  unfolding respond perform
  send_txt-Refuses r txt d = refl

  pub delete-Refuses :
      Refuses order t Request.delete
        (Response.delete (status_code StatusCode.unauthorized))
        Method.delete_user
        (λ s. Response.delete (status_code StatusCode.ok))
  unfolding respond perform
  delete-Refuses d = refl

  pub recv_txt-Refuses :
      (u : Str)
      → Refuses order t
          (Request.recv_txt u)
          (Response.no_texts (status_code StatusCode.unauthorized))
          (Method.recv_txt u)
          (λ c.
            if is_ok c.0
            then Response.recv_txt c.1
            else Response.no_texts (status_code StatusCode.user_noexist))
  unfolding respond perform
  recv_txt-Refuses u d =
      ap
        (λ x.
          if Database.is_logged_in t d
          then x
          else done (Response.no_texts (status_code StatusCode.unauthorized), d))
        (answered-bind _ (Database.recv_txt t u no_texts_at_all d) _ _ λ c e. refl)

  pub correspondents-Refuses :
      Refuses order t Request.correspondents
        (Response.no_correspondents (status_code StatusCode.unauthorized))
        Method.get_correspondents
        (λ us. Response.correspondents us.1)
  unfolding respond perform
  correspondents-Refuses d =
      ap
        (λ x.
          if Database.is_logged_in t d
          then x
          else done (Response.no_correspondents (status_code StatusCode.unauthorized), d))
        (answered-bind _ (Database.get_correspondents order t [] d) _ _ λ us e. refl)

module _ (order : List Str → List Str) (t : ThreadId) (o : Outcome (Response × Database))
    (db : Database) where
  abbrev Serves : Request → Type 0
  Serves q = Runs order t o (program q) db → AtOnce order t q o db

  -- A handler that turns a request down without calling a method, or goes on.
  refused_or :
      (q : Request) (b : Bool) (r : Response) (p : Program)
      → ((d : Database) → b ≡ true → respond order t q d ≡ done (r, d))
      → (b ≡ false → Runs order t o p db → AtOnce order t q o db)
      → Runs order t o (if b then Program.answer r else p) db
      → AtOnce order t q o db
  refused_or q true r p promise k runs =
      let (db', after, e) = Runs-answer order t o r db runs in
      served db db db' r no_more (promise db refl) after e
  refused_or q false r p promise k runs = k refl runs

  registration-Serves : (u p : Str) → Serves (Request.registration u p)
  unfolding program respond perform
  registration-Serves u p =
      refused_or (Request.registration u p) (username_refused u) _ _ (λ d e. rw e refl)
        λ away.
          refused_or (Request.registration u p) (password_refused p) _ _ (λ d e. rw (away, e) refl)
            λ away2.
              one_call order t o (Request.registration u p) (Method.registration u p)
                (λ s. Response.registration (status_code (code_or StatusCode.user_exists s))) db db
                (λ d same. rw (away, away2) refl) no_more

  login_first :
      (u p : Str) (db1 : Database)
      → Database.is_logged_in t db1 ≡ false
      → Others t db1 db
      → Runs order t o (log_in u p) db1
      → AtOnce order t (Request.login u p) o db
  unfolding respond perform Database.is_logged_in
  login_first u p db1 away =
      one_call order t o (Request.login u p) (Method.login u p) said db db1 λ d same.
        ap
          (λ b.
            let r = Database.login t u p (if b then (Database.logout t d).1 else d) in
            done (said r.0, r.1))
          (ap is_some same ∙ away)

  -- The login of a thread that has just been logged out: as if it were still logged in.
  login_next :
      (u p : Str) (db1 d1 : Database)
      → Database.is_logged_in t db1 ≡ true
      → d1 ≡ without t db1
      → Others t db1 db
      → Runs order t o (log_in u p) d1
      → AtOnce order t (Request.login u p) o db
  unfolding respond perform Database.is_logged_in
  login_next u p db1 d1 here1 same before runs =
      let (d2, between, ends) = Runs-call order t o (Method.login u p) _ d1 runs in
      let (db2, between2, same2) = Others-without db1 same between in
      let here2 = ap is_some (Others-lookup between2) ∙ here1 in
      last_call order t o (Request.login u p) (Method.login u p) said db db2 d2
        (ap (λ d. let r = Database.login t u p d in done (said r.0, r.1))
          (rw here2 (logout-without t db2 here2 ∙ sym same2)))
        (Others-append between2 before) ends

  login_again :
      (u p : Str) (db1 : Database)
      → Database.is_logged_in t db1 ≡ true
      → Others t db1 db
      → Runs order t o (Program.call Method.logout λ s. log_in u p) db1
      → AtOnce order t (Request.login u p) o db
  unfolding perform Database.is_logged_in
  login_again u p db1 here1 before runs =
      let (db2, between, ends) = Runs-call order t o Method.logout _ db1 runs in
      let here2 = ap is_some (Others-lookup between) ∙ here1 in
      elim ends [
        | inl (s, d, e, rest) ↦
            login_next u p db2 d here2
              (sym (ap (λ x. x.1) (done_inj e)) ∙ logout-without t db2 here2)
              (Others-append between before) rest
        | inr (h, e, e') ↦ absurd (cc)
      ]

  login_cases :
      (u p : Str) (b : Bool) (db1 : Database)
      → Database.is_logged_in t db1 ≡ b
      → Others t db1 db
      → Runs order t o (if b then Program.call Method.logout (λ s. log_in u p) else log_in u p) db1
      → AtOnce order t (Request.login u p) o db
  login_cases u p true = login_again u p
  login_cases u p false = login_first u p

  login-Serves : (u p : Str) → Serves (Request.login u p)
  unfolding program
  login-Serves u p runs =
      let (db1, before, rest) = Runs-check order t o _ db runs in
      login_cases u p (Database.is_logged_in t db1) db1 refl before rest

  program-Serves : (q : Request) → Serves q
  unfolding program
  program-Serves (Request.registration u p) = registration-Serves u p
  program-Serves (Request.login u p) = login-Serves u p
  program-Serves Request.logout = authorized_call order t o _ _ _ _ db (logout-Refuses order t)
  program-Serves (Request.accounts p) =
      authorized_call order t o _ _ _ _ db (accounts-Refuses order t p)
  program-Serves (Request.send_txt r txt) =
      authorized_call order t o _ _ _ _ db (send_txt-Refuses order t r txt)
  program-Serves (Request.recv_txt u) =
      authorized_call order t o _ _ _ _ db (recv_txt-Refuses order t u)
  program-Serves Request.correspondents =
      authorized_call order t o _ _ _ _ db (correspondents-Refuses order t)
  program-Serves Request.delete = authorized_call order t o _ _ _ _ db (delete-Refuses order t)

-- Whatever methods other threads run before, between and after those of a handler: the response is
-- the one that the server promises for the request, formed at once at some moment among the methods
-- of the others, and so is the change of the database; and if the handler halts the server, so
-- would that.
pub program-AtOnce :
    (order : List Str → List Str) (t : ThreadId) (o : Outcome (Response × Database)) (db : Database)
    (q : Request)
    → Runs order t o (program q) db
    → AtOnce order t q o db
program-AtOnce = program-Serves
