-- ===== src/Server/Threads/Calm.antt =====
-- The threads of src/server/server.cc as long as no account is deleted.
use chat.Common.{
  halted_alike, ◌≢◌, ◌∙◌, List, [], Str, arith, nat_Key, str_Key, str_eq_iff, str_lt, unordered,
  lookup-insert, lookup-erase, if_cases, inl, inr, Outcome, done, halt, Halt, ◌>>=◌, Ends,
  Ends-done, Ends-bind,
}
use chat.Protocol.Requests.{Request}
use chat.Database.{Database, ThreadId, login, logout, registration}
use chat.Database.Sending.{user_exists-sent}
use chat.Database.Invariant.{WellFormed, send_txt_inv}
use chat.Database.Methods.{Method, Reply, perform}
use chat.Server.Faults.{Attended, send_txt-ne-halt, recv_txt-ne-halt, get_correspondents-ne-halt}
use chat.Server.{username_refused, password_refused}
use chat.Server.Interleaving.{Program, program}
use chat.Server.Threads.{advance}

abbrev pub IsKeeping : Method → Type 0
IsKeeping Method.delete_user = ⊥
IsKeeping m = Unit {0}

abbrev pub KeepsUsers : Program → Type 0
KeepsUsers (Program.answer r) = Unit {0}
KeepsUsers (Program.call m k) = IsKeeping m × ((r : Reply m) → KeepsUsers (k r))

abbrev pub IsNotDelete : Request → Type 0
IsNotDelete Request.delete = ⊥
IsNotDelete q = Unit {0}

pub program-KeepsUsers : (q : Request) → IsNotDelete q → KeepsUsers (program q)
unfolding program
program-KeepsUsers (Request.registration u p) h =
    if_cases KeepsUsers (username_refused u) _ _ (λ e. tt)
      (λ e. if_cases KeepsUsers (password_refused p) _ _ (λ e. tt) (λ e. (tt, λ s. tt)))
program-KeepsUsers (Request.login u p) h =
    (tt, λ b. if_cases KeepsUsers b _ _ (λ e. (tt, λ s. (tt, λ r. tt))) (λ e. (tt, λ r. tt)))
program-KeepsUsers Request.logout h =
    (tt, λ b. if_cases KeepsUsers b _ _ (λ e. (tt, λ s. tt)) (λ e. tt))
program-KeepsUsers (Request.accounts p) h =
    (tt, λ b. if_cases KeepsUsers b _ _ (λ e. (tt, λ s. tt)) (λ e. tt))
program-KeepsUsers (Request.send_txt r txt) h =
    (tt, λ b. if_cases KeepsUsers b _ _ (λ e. (tt, λ s. tt)) (λ e. tt))
program-KeepsUsers (Request.recv_txt u) h =
    (tt, λ b. if_cases KeepsUsers b _ _ (λ e. (tt, λ s. tt)) (λ e. tt))
program-KeepsUsers Request.correspondents h =
    (tt, λ b. if_cases KeepsUsers b _ _ (λ e. (tt, λ s. tt)) (λ e. tt))
program-KeepsUsers Request.delete h = absurd h

module _ (order : List Str → List Str) (t : ThreadId) (db : Database) (attended : Attended db) where
  pub logout-Attended : Attended (logout t db).1
  unfolding logout
  logout-Attended s a h = ground (arith, lookup-erase t s db.threads_, attended s a)

  login-Attended : (u p : Str) → Attended (login t u p db).1
  unfolding login
  login-Attended u p s a h = ground (arith, lookup-insert unordered t s u db.threads_, attended s a)

  registration-Attended : (u p : Str) → Attended (registration u p db).1
  unfolding registration
  registration-Attended u p s a h = ground (
    arith,
    str_eq_iff u a,
    lookup-insert str_lt u a (record { username_ = u; password_ = p; chats_ = [] }) db.users_,
    attended s a,
  )

  read-Attended :
      {A : Type 0} (o : Outcome A)
      → Ends (λ (r : A × Database). Attended r.1) (o >>= λ a. done (a, db))
  read-Attended o =
      Ends-bind {Q = λ a. Unit {0}} o _ (record { at = λ a e. tt }) λ a q. Ends-done _ attended

  perform-Attended :
      (m : Method)
      → WellFormed db
      → IsKeeping m
      → Ends (λ (r : Reply m × Database). Attended r.1) (perform order t m db)
  unfolding perform
  perform-Attended Method.is_logged_in w k = Ends-done _ attended
  perform-Attended Method.logout w k = Ends-done _ logout-Attended
  perform-Attended Method.get_correspondents w k = read-Attended _
  perform-Attended Method.delete_user w k = absurd k
  perform-Attended (Method.login u p) w k = Ends-done _ (login-Attended u p)
  perform-Attended (Method.registration u p) w k = Ends-done _ (registration-Attended u p)
  perform-Attended (Method.send_txt r txt) w k = record {
    at = λ x e. elim (send_txt_inv w t r txt x.0 x.1 e) [
      | inl same ↦ rw same attended
      | inr (me, e1, e2, g) ↦ rw g λ s a h. user_exists-sent me r txt db e1 e2 a ∙ attended s a h
    ];
  }
  perform-Attended (Method.get_usernames p) w k = Ends-done _ attended
  perform-Attended (Method.recv_txt u) w k = read-Attended _

  perform-ne-halt : (m : Method) (h : Halt) → IsKeeping m → perform order t m db ≢ halt h
  unfolding perform
  perform-ne-halt Method.is_logged_in h k e = absurd (cc)
  perform-ne-halt Method.logout h k e = absurd (cc)
  perform-ne-halt Method.get_correspondents h k e =
      get_correspondents-ne-halt t db attended order [] h (halted_alike _ _ h e)
  perform-ne-halt Method.delete_user h k e = absurd k
  perform-ne-halt (Method.login u p) h k e = absurd (cc)
  perform-ne-halt (Method.registration u p) h k e = absurd (cc)
  perform-ne-halt (Method.send_txt r txt) h k e = send_txt-ne-halt t db attended r txt h e
  perform-ne-halt (Method.get_usernames p) h k e = absurd (cc)
  perform-ne-halt (Method.recv_txt u) h k e =
      recv_txt-ne-halt t db attended u (record { texts_ = [] }) h (halted_alike _ _ h e)

  pub advance-Attended :
      (p : Program)
      → WellFormed db
      → KeepsUsers p
      → Ends (λ (r : Program × Database). KeepsUsers r.0 × Attended r.1) (advance order t p db)
  unfolding advance
  advance-Attended (Program.answer r) w k = Ends-done _ (tt, attended)
  advance-Attended (Program.call m f) w (k, ks) =
      Ends-bind _ _ (perform-Attended m w k) λ r q. Ends-done _ (ks r.0, q)

  pub advance-ne-halt : (p : Program) (h : Halt) → KeepsUsers p → advance order t p db ≢ halt h
  unfolding advance
  advance-ne-halt (Program.answer r) h k e = absurd (cc)
  advance-ne-halt (Program.call m f) h (k, ks) e =
      perform-ne-halt m h k (halted_alike (perform order t m db) _ h e)
