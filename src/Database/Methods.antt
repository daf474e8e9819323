-- ===== src/Database/Methods.antt =====
-- src/server/database.cc: any method, as one step.
use chat.Common.{Bool, List, [], Str, Status, Outcome, done, ◌>>=◌, Ends, Ends-done, Ends-bind}
use chat.Chat.{Chat}
use chat.Database
use chat.Database.{Database, ThreadId}
use chat.Database.Deletion.{WalksKeys}
use chat.Database.Steps.{
  Reach, here, next, login_step, logout_step, registration_step, send_step, delete_step,
}

-- A call of one of the database's methods, with its arguments; the thread is the one that calls.
pub data Method : Type 0 where
  is_logged_in logout get_correspondents delete_user : Method
  login registration send_txt : Str → Str → Method
  get_usernames recv_txt : Str → Method

-- What the method returns, with its out-parameters.
abbrev pub Reply : Method → Type 0
Reply Method.is_logged_in = Bool
Reply Method.logout = Status
Reply Method.get_correspondents = Status × List Str
Reply Method.delete_user = Status
Reply (Method.login u p) = Status
Reply (Method.registration u p) = Status
Reply (Method.send_txt r txt) = Status
Reply (Method.get_usernames p) = List Str
Reply (Method.recv_txt u) = Status × Chat

-- The method as one step, since it holds the mutex all along.
unfoldable pub perform :
    (List Str → List Str) → ThreadId → (m : Method) → Database → Outcome (Reply m × Database)
perform order t Method.is_logged_in db = done (Database.is_logged_in t db, db)
perform order t Method.logout db = done (Database.logout t db)
perform order t Method.get_correspondents db = do
  us ← Database.get_correspondents order t [] db
  done (us, db)
perform order t Method.delete_user db = Database.delete_user order t db
perform order t (Method.login u p) db = done (Database.login t u p db)
perform order t (Method.registration u p) db = done (Database.registration u p db)
perform order t (Method.send_txt r txt) db = Database.send_txt t r txt db
perform order t (Method.get_usernames p) db = done (Database.get_usernames p db, db)
perform order t (Method.recv_txt u) db = do
  c ← Database.recv_txt t u (record { texts_ = [] }) db
  done (c, db)

module _ (order : List Str → List Str) (walks : WalksKeys order) (t : ThreadId)
    (db : Database) where
  read-Reach :
      {A : Type 0} (o : Outcome A)
      → Ends (λ (r : A × Database). Reach db r.1) (o >>= λ a. done (a, db))
  read-Reach o =
      Ends-bind {Q = λ a. Unit {0}} o _ (record { at = λ a e. tt }) λ a q. Ends-done _ here

  pub perform-Reach :
      (m : Method) → Ends (λ (r : Reply m × Database). Reach db r.1) (perform order t m db)
  unfolding perform
  perform-Reach Method.is_logged_in = Ends-done _ here
  perform-Reach Method.logout = Ends-done _ (next here (logout_step t))
  perform-Reach Method.get_correspondents = read-Reach _
  perform-Reach Method.delete_user = record {
    at = λ r e. next here (delete_step order t r.0 walks e);
  }
  perform-Reach (Method.login u p) = Ends-done _ (next here (login_step t u p))
  perform-Reach (Method.registration u p) = Ends-done _ (next here (registration_step u p))
  perform-Reach (Method.send_txt r txt) = record { at = λ a e. next here (send_step t r txt a.0 e) }
  perform-Reach (Method.get_usernames p) = Ends-done _ here
  perform-Reach (Method.recv_txt u) = read-Reach _
