-- ===== src/Database/Names.antt =====
-- The names that src/server/database.cc takes, against a list of the registrations that were tried.
use chat.Common.{
  ◌≡◌, ◌↔◌, refl, sym, ap, subst, ◌∙◌, false, List, [], ◌∷◌, arith, Str, str_eq_iff, str_Key,
  nat_Key, contains, contains-cons, Bool-cases, inl, inr, Status, Outcome, done, ◌>>=◌, done_inj,
  bind_done,
}
use chat.Database.{ThreadId, Database, empty, registration}
use chat.Database.View.{user_exists}
use chat.Database.Invariant.{WellFormed, empty-WellFormed, send_txt_inv}
use chat.Database.Deletion.{WalksKeys, delete_user_inv}
use chat.Database.Accounts.{registration-ok_iff}
use chat.Database.Steps.{Reach-WellFormed, login_history, logout_history}
use chat.Database.Methods.{Method, Reply, perform, perform-Reach}

-- The names that registration was called with, the latest in front.
abbrev pub tried : Method → List Str → List Str
tried (Method.registration u p) ns = u ∷ ns
tried m ns = ns

-- The databases that any threads reach with any methods from the empty one, with those names.
pub data Tried : List Str → Database → Type 0 where
  none_tried : Tried [] empty
  performed :
      (ns : List Str) (db : Database) (order : List Str → List Str) (t : ThreadId) (m : Method)
      (r : Reply m) (db' : Database)
      → Tried ns db
      → WalksKeys order
      → perform order t m db ≡ done (r, db')
      → Tried (tried m ns) db'

Tried-WellFormed : {ns : List Str} {db : Database} → Tried ns db → WellFormed db
Tried-WellFormed none_tried = empty-WellFormed
Tried-WellFormed (performed ns db order t m r db' h walks e) =
    Reach-WellFormed (Tried-WellFormed h) ((perform-Reach order walks t db m).at _ e)

-- The names taken are those that were tried.
abbrev Agrees : Str → List Str → Database → Type 0
Agrees b ns db = contains b db.historical_users_ ≡ contains b ns

module _ (b : Str) (ns : List Str) (db : Database) (w : WellFormed db) (same : Agrees b ns db) where
  registration_tried : (a p : Str) → Agrees b (a ∷ ns) (registration a p db).1
  unfolding registration
  registration_tried a p = ground (
    arith,
    contains-cons b a db.historical_users_,
    contains-cons b a ns,
    str_eq_iff a b,
    w.known a,
  )

  read_tried :
      {A : Type 0} (db' : Database) (o : Outcome A) (r : A)
      → ◌>>=◌ {B = A × Database} o (λ x. done (x, db)) ≡ done (r, db')
      → Agrees b ns db'
  read_tried db' o r h =
      let (x, e1, e2) = bind_done o _ _ h in subst (Agrees b ns) (ap (λ z. z.1) (done_inj e2)) same

  perform-tried :
      (db' : Database) (order : List Str → List Str) (t : ThreadId) (m : Method) (r : Reply m)
      → WalksKeys order
      → perform order t m db ≡ done (r, db')
      → Agrees b (tried m ns) db'
  unfolding perform
  perform-tried db' order t Method.is_logged_in r walks h =
      subst (Agrees b ns) (ap (λ z. z.1) (done_inj h)) same
  perform-tried db' order t Method.logout r walks h =
      subst (Agrees b ns) (ap (λ z. z.1) (done_inj h))
        (ap (contains b) (logout_history t db) ∙ same)
  perform-tried db' order t Method.get_correspondents r walks h = read_tried db' _ r h
  perform-tried db' order t Method.delete_user r walks h =
      elim (delete_user_inv order t db db' r walks w h) [
        | inl e ↦ subst (Agrees b ns) (sym e) same
        | inr (me, d) ↦ ap (contains b) d.history ∙ same
      ]
  perform-tried db' order t (Method.login u p) r walks h =
      subst (Agrees b ns) (ap (λ z. z.1) (done_inj h))
        (ap (contains b) (login_history t u p db) ∙ same)
  perform-tried db' order t (Method.registration u p) r walks h =
      subst (Agrees b (u ∷ ns)) (ap (λ z. z.1) (done_inj h)) (registration_tried u p)
  perform-tried db' order t (Method.send_txt c txt) r walks h =
      elim (send_txt_inv w t c txt r db' h) [
        | inl e ↦ subst (Agrees b ns) (sym e) same
        | inr (me, e1, e2, g) ↦ ap (λ (d : Database). contains b d.historical_users_) g ∙ same
      ]
  perform-tried db' order t (Method.get_usernames p) r walks h =
      subst (Agrees b ns) (ap (λ z. z.1) (done_inj h)) same
  perform-tried db' order t (Method.recv_txt u) r walks h = read_tried db' _ r h

taken-Tried : (b : Str) {ns : List Str} {db : Database} → Tried ns db → Agrees b ns db
taken-Tried b none_tried = refl
taken-Tried b (performed ns db order t m r db' h walks e) =
    perform-tried b ns db (Tried-WellFormed h) (taken-Tried b h) db' order t m r walks e

-- Whatever methods any threads have performed since the database was empty, deletions included: a
-- registration succeeds exactly for a name that no registration before was called with.
pub registration-untried_iff :
    (ns : List Str) (db : Database) (a p : Str)
    → Tried ns db
    → ((registration a p db).0 ≡ Status.ok) ↔ (contains a ns ≡ false)
registration-untried_iff ns db a p h = (
  λ ok. sym (taken-Tried a h) ∙ ((registration-ok_iff a p db).0 ok).1,
  λ new.
      let free : contains a db.historical_users_ ≡ false = taken-Tried a h ∙ new in
      (registration-ok_iff a p db).1 (
        elim (Bool-cases (user_exists a db)) [
          | inl e ↦ absurd (ground (arith, Tried-WellFormed h, (Tried-WellFormed h).known a e))
          | inr e ↦ e
        ],
        free,
      ),
)
