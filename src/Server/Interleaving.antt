-- ===== src/Server/Interleaving.antt =====
-- src/server/server.cc: the handlers as the threads run them, one method of the database after
-- another, with methods of other threads in between.
pub mod Commute
pub mod Other
pub mod Atomic
pub mod Serves
pub mod Alone
use chat.Common.{
  ℕ, ◌≡◌, ◌≢◌, Bool, [], if◌then◌else◌, List, Str, Status, Outcome, done, halt, Halt, ◌>>=◌,
}
use chat.Chat.{Chat}
use chat.Protocol.Header.{StatusCode, status_code}
use chat.Protocol.Requests.{Request}
use chat.Protocol.Responses.{Response}
use chat.Database
use chat.Database.{Database, ThreadId}
use chat.Database.Methods.{Method, Reply, perform}
use chat.Server.{is_ok, username_refused, password_refused}
use chat.Server.Service.{no_texts_at_all, code_or}

-- What a handler has yet to do: to send a response, or to call a method and to go on from its reply.
pub data Program : Type 0 where
  answer : Response → Program
  call : (m : Method) → (Reply m → Program) → Program

abbrev answer_code : (ℕ → Response) → StatusCode → Program
answer_code f c = Program.answer (f (status_code c))

-- `if (!database_.is_logged_in())` with its early return.
abbrev if_logged_in : Program → Program → Program
if_logged_in refusal p = Program.call Method.is_logged_in λ b. if b then p else refusal

abbrev pub said : Status → Response
said s = Response.login (status_code (code_or StatusCode.invalid_credentials s))

abbrev pub registered : Status → Response
registered s = Response.registration (status_code (code_or StatusCode.user_exists s))

abbrev pub log_in : Str → Str → Program
log_in u p = Program.call (Method.login u p) λ s. Program.answer (said s)

-- A handler from the point where it has read its request.
unfoldable pub program : Request → Program
program (Request.registration u p) =
    if username_refused u
    then answer_code Response.registration StatusCode.username_invalid
    else if password_refused p
    then answer_code Response.registration StatusCode.password_invalid
    else Program.call (Method.registration u p) λ s. Program.answer (registered s)
program (Request.login u p) =
    Program.call Method.is_logged_in
      λ b. if b then Program.call Method.logout (λ s. log_in u p) else log_in u p
program Request.logout =
    if_logged_in (answer_code Response.logout StatusCode.unauthorized)
      (Program.call Method.logout λ s. answer_code Response.logout StatusCode.ok)
program (Request.accounts p) =
    if_logged_in (answer_code Response.no_accounts StatusCode.unauthorized)
      (Program.call (Method.get_usernames p) λ us. Program.answer (Response.accounts us))
program (Request.send_txt r txt) =
    if_logged_in (answer_code Response.send_txt StatusCode.unauthorized) (
      Program.call (Method.send_txt r txt)
        λ s. answer_code Response.send_txt (code_or StatusCode.user_noexist s))
program (Request.recv_txt u) =
    if_logged_in (answer_code Response.no_texts StatusCode.unauthorized) (
      Program.call (Method.recv_txt u) λ c. Program.answer (
        if is_ok c.0
        then Response.recv_txt c.1
        else Response.no_texts (status_code StatusCode.user_noexist)))
program Request.correspondents =
    if_logged_in (answer_code Response.no_correspondents StatusCode.unauthorized)
      (Program.call Method.get_correspondents λ us. Program.answer (Response.correspondents us.1))
program Request.delete =
    if_logged_in (answer_code Response.delete StatusCode.unauthorized)
      (Program.call Method.delete_user λ s. answer_code Response.delete StatusCode.ok)

-- The handler with no other thread in between.
unfoldable pub alone :
    (List Str → List Str) → ThreadId → Program → Database → Outcome (Response × Database)
alone order t (Program.answer r) db = done (r, db)
alone order t (Program.call m k) db = do r ← perform order t m db; alone order t (k r.0) r.1

-- Methods of threads other than `t`, one after another.
pub data Others (t : ThreadId) (db' : Database) : Database → Type 0 where
  no_more : Others t db' db'
  one_more :
      {db1 : Database} (db : Database) (order : List Str → List Str) (t' : ThreadId) (m : Method)
      (r : Reply m)
      → t' ≢ t
      → perform order t' m db ≡ done (r, db1)
      → Others t db' db1
      → Others t db' db

-- The runs of thread `t` from a program and a database: how each ends.
module _ (order : List Str → List Str) (t : ThreadId) where
  pub data Runs (o : Outcome (Response × Database)) : Program → Database → Type 0 where
    answered : (r : Response) (db : Database) → o ≡ done (r, db) → Runs o (Program.answer r) db
    called :
        (m : Method) (k : Reply m → Program) (db : Database) (r : Reply m) (db1 : Database)
        → perform order t m db ≡ done (r, db1)
        → Runs o (k r) db1
        → Runs o (Program.call m k) db
    stopped :
        (m : Method) (k : Reply m → Program) (db : Database) (h : Halt)
        → perform order t m db ≡ halt h
        → o ≡ halt h
        → Runs o (Program.call m k) db
    meanwhile :
        (p : Program) (db db1 : Database) (order' : List Str → List Str) (t' : ThreadId)
        (m : Method) (r : Reply m)
        → t' ≢ t
        → perform order' t' m db ≡ done (r, db1)
        → Runs o p db1
        → Runs o p db
