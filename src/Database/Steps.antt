-- ===== src/Database/Steps.antt =====
-- The states of a server's database: methods called by any threads in any order.
use chat.Common.{
  ◌≡◌, ap, ◌∙◌, true, List, arith, Str, str_Key, nat_Key, contains, contains-cons, inl, inr, Status,
  done,
}
use chat.Database.{ThreadId, Database, login, registration, logout, send_txt, delete_user}
use chat.Database.View.{user_exists}
use chat.Database.Invariant.{
  WellFormed, login-WellFormed, logout-WellFormed, registration-WellFormed, send_txt_inv,
  send_txt-WellFormed,
}
use chat.Database.Deletion.{WalksKeys, delete_user_inv, delete_user-WellFormed}

-- One method that changes the database, called and returned. The methods that only read are left out.
pub data Step (db : Database) : Database → Type 0 where
  login_step : (t : ThreadId) (a p : Str) → Step db (login t a p db).1
  logout_step : (t : ThreadId) → Step db (logout t db).1
  registration_step : (a p : Str) → Step db (registration a p db).1
  send_step :
      {db' : Database} (t : ThreadId) (r txt : Str) (s : Status)
      → send_txt t r txt db ≡ done (s, db')
      → Step db db'
  delete_step :
      {db' : Database} (order : List Str → List Str) (t : ThreadId) (s : Status)
      → WalksKeys order
      → delete_user order t db ≡ done (s, db')
      → Step db db'

pub data Reach (db : Database) : Database → Type 0 where
  here : Reach db db
  next : {db1 db2 : Database} → Reach db db1 → Step db1 db2 → Reach db db2

pub Step-WellFormed : {db db' : Database} → Step db db' → WellFormed db → WellFormed db'
Step-WellFormed (login_step t a p) w = login-WellFormed w t a p
Step-WellFormed (logout_step t) w = logout-WellFormed w t
Step-WellFormed (registration_step a p) w = registration-WellFormed w a p
Step-WellFormed (send_step t r txt s e) w = send_txt-WellFormed w t r txt s _ e
Step-WellFormed (delete_step order t s walks e) w = delete_user-WellFormed order t _ _ s walks w e

-- Whatever methods are called from a well-formed database on, the database is well formed: users
-- stand under their names, and the two sides of every chat tell the same texts in the same order.
pub Reach-WellFormed : {db db' : Database} → WellFormed db → Reach db db' → WellFormed db'
Reach-WellFormed w here = w
Reach-WellFormed w (next r s) = Step-WellFormed s (Reach-WellFormed w r)

pub login_history :
    (t : ThreadId) (a p : Str) (db : Database)
    → (login t a p db).1.historical_users_ ≡ db.historical_users_
unfolding login
login_history t a p db = ground arith

pub logout_history :
    (t : ThreadId) (db : Database) → (logout t db).1.historical_users_ ≡ db.historical_users_
unfolding logout
logout_history t db = ground arith

registration_keeps :
    (a p b : Str) (db : Database)
    → contains b db.historical_users_ ≡ true
    → contains b (registration a p db).1.historical_users_ ≡ true
unfolding registration
registration_keeps a p b db h = ground (arith, contains-cons b a db.historical_users_)

-- A name that was taken stays taken.
Step-taken :
    {db db' : Database} (b : Str)
    → WellFormed db
    → Step db db'
    → contains b db.historical_users_ ≡ true
    → contains b db'.historical_users_ ≡ true
Step-taken {db} b w (login_step t a p) h = ap (contains b) (login_history t a p db) ∙ h
Step-taken {db} b w (logout_step t) h = ap (contains b) (logout_history t db) ∙ h
Step-taken {db} b w (registration_step a p) h = registration_keeps a p b db h
Step-taken b w (send_step t r txt s e) h = elim (send_txt_inv w t r txt s _ e) [
  | inl same ↦ ground arith
  | inr (me, e1, e2, g) ↦ ground (arith, ap (λ (d : Database). d.historical_users_) g)
]
Step-taken b w (delete_step order t s walks e) h = elim (delete_user_inv order t _ _ s walks w e) [
  | inl same ↦ ground arith
  | inr (me, d) ↦ ap (contains b) d.history ∙ h
]

pub Reach-taken :
    {db db' : Database} (b : Str)
    → WellFormed db
    → Reach db db'
    → contains b db.historical_users_ ≡ true
    → contains b db'.historical_users_ ≡ true
Reach-taken b w here h = h
Reach-taken b w (next r s) h = Step-taken b (Reach-WellFormed w r) s (Reach-taken b w r h)

-- From a well-formed database on, the name of a user, also of one deleted since, cannot be
-- registered again: the attempt fails and changes nothing.
pub registration_once :
    {db db' : Database} (a p : Str)
    → WellFormed db
    → Reach db db'
    → user_exists a db ≡ true
    → registration a p db' ≡ (Status.error, db')
unfolding registration
registration_once a p w r h = ground (arith, Reach-taken a w r (w.known a h))
