-- ===== src/Server/Interleaving/Commute.antt =====
-- Methods of one thread and the login of another.
use chat.Common.{
  ◌≡◌, ◌≢◌, refl, sym, ap, subst, none, some, str_Key, keys, Status, Ends, Ends-done, Ends-bind,
  Ends-option, List, [], ◌∷◌, arith, nat_Key, Str, Key, Outcome, done, ◌>>=◌, answered-option,
  answered-bind, lookup, insert, erase, unordered, lookup-erase, lookup-insert,
}
use chat.Chat.{Chat}
use chat.Database.{
  Database, ThreadId, login, registration, logout, is_logged_in, get_usernames, send_txt, recv_txt,
  get_correspondents, delete_user, user_at, erase_chats,
}
use chat.Server.Service.{no_texts_at_all}
use chat.Database.Methods.{Method, Reply, perform}

module _ {ℓ κ} {K : Type ℓ} {V : Type κ} ⦃e : Key K⦄ where
  pub erase-erase : (j k : K) (m : List (K × V)) → erase j (erase k m) ≡ erase k (erase j m)
  unfolding erase
  erase-erase j k [] = refl
  erase-erase j k ((i, v) ∷ m) = ground (arith, erase-erase j k m)

  erase-insert :
      (j k : K) (v : V) (m : List (K × V))
      → j ≢ k
      → erase j (insert unordered k v m) ≡ insert unordered k v (erase j m)
  unfolding erase insert
  erase-insert j k v [] h = ground (arith, e.same_iff k j)
  erase-insert j k v ((i, w) ∷ m) h = ground (arith, erase-insert j k v m h)

-- The database without the login of `t`.
abbrev pub without : ThreadId → Database → Database
without t db = record db { threads_ = erase t db.threads_ }

module _ (order : List Str → List Str) (t t' : ThreadId) (h : t' ≢ t) (db : Database) where
  lookup_other : lookup t' (erase t db.threads_) ≡ lookup t' db.threads_
  lookup_other = ground (arith, lookup-erase t t' db.threads_)

  -- A method that looks the thread up goes on alike with and without `t`.
  same_session {ℓ κ} :
      {A : Type ℓ} {B : Type κ} (f : A → Outcome B) (x : Outcome B) (y : Str → Outcome B)
      (m : Outcome A) (n : Str → Outcome A)
      → x ≡ (m >>= f)
      → ((me : Str) → y me ≡ (n me >>= f))
      → elim (lookup t' (without t db).threads_) [ none ↦ x | some me ↦ y me ]
        ≡ (elim (lookup t' db.threads_) [ none ↦ m | some me ↦ n me ] >>= f)
  same_session f x y m n p q =
      subst
        (λ o.
          elim o [ none ↦ x | some me ↦ y me ]
          ≡ (elim (lookup t' db.threads_) [ none ↦ m | some me ↦ n me ] >>= f))
        (sym lookup_other) (answered-option f (lookup t' db.threads_) x y m n p q)

  abbrev Commutes : Method → Type 0
  Commutes m =
      perform order t' m (without t db) ≡ (perform order t' m db >>= λ r. done (r.0, without t r.1))

  logout-Commutes : Commutes Method.logout
  unfolding perform logout
  logout-Commutes = ground (arith, lookup_other, erase-erase t' t db.threads_)

  login-Commutes : (u p : Str) → Commutes (Method.login u p)
  unfolding perform login
  login-Commutes u p = ground (arith, lookup_other, erase-insert t t' u db.threads_)

  registration-Commutes : (u p : Str) → Commutes (Method.registration u p)
  unfolding perform registration
  registration-Commutes u p = ground arith

  send_txt-Commutes : (r txt : Str) → Commutes (Method.send_txt r txt)
  unfolding perform send_txt user_at
  send_txt-Commutes r txt = same_session _ _ _ _ _ refl λ me.
      answered-bind _ (user_at me db) _ _
        λ u e. answered-option _ (lookup ⦃e = str_Key⦄ r db.users_) _ _ _ _ refl λ v. refl

  delete_user-Commutes : Commutes Method.delete_user
  unfolding perform delete_user user_at
  delete_user-Commutes = same_session _ _ _ _ _ refl λ me.
      answered-bind _ (user_at me db) _ _ λ u e.
        answered-bind _ (erase_chats me (order (keys u.chats_)) db.users_) _ _ λ us e'.
          ap (λ ts. done (Status.ok, record db { users_ = erase me us; threads_ = ts }))
            (erase-erase t' t db.threads_)

  -- A method that reads the same has the same effect: none.
  read-Commutes {ℓ} :
      {A : Type ℓ} (m n : Outcome A)
      → m ≡ n
      → ◌>>=◌ {B = A × Database} m (λ a. done (a, without t db))
        ≡ (◌>>=◌ {B = A × Database} n (λ a. done (a, db)) >>= λ r. done (r.0, without t r.1))
  read-Commutes m n e = rw e (answered-bind _ n _ _ λ a q. refl)

  get_correspondents_other :
      get_correspondents order t' [] (without t db) ≡ get_correspondents order t' [] db
  unfolding get_correspondents user_at
  get_correspondents_other = rw (lookup_other, get_correspondents) refl

  recv_txt_same : (u : Str) (c : Chat) → recv_txt t' u c (without t db) ≡ recv_txt t' u c db
  unfolding recv_txt user_at
  recv_txt_same u c = rw (lookup_other, recv_txt) refl

  is_logged_in_other : is_logged_in t' (without t db) ≡ is_logged_in t' db
  unfolding is_logged_in
  is_logged_in_other = rw lookup_other refl

  -- What a thread does is the same whether or not another is logged in, and leaves the other's
  -- login as it is.
  pub perform-Commutes : (m : Method) → Commutes m
  unfolding perform get_usernames
  perform-Commutes Method.is_logged_in = ap (λ b. done (b, without t db)) is_logged_in_other
  perform-Commutes Method.logout = logout-Commutes
  perform-Commutes Method.get_correspondents = read-Commutes _ _ get_correspondents_other
  perform-Commutes Method.delete_user = delete_user-Commutes
  perform-Commutes (Method.login u p) = login-Commutes u p
  perform-Commutes (Method.registration u p) = registration-Commutes u p
  perform-Commutes (Method.send_txt r txt) = send_txt-Commutes r txt
  perform-Commutes (Method.get_usernames p) = refl
  perform-Commutes (Method.recv_txt u) = read-Commutes _ _ (recv_txt_same u no_texts_at_all)

  abbrev Spares : Method → Type 0
  Spares m =
      Ends (λ (r : Reply m × Database). lookup t r.1.threads_ ≡ lookup t db.threads_)
        (perform order t' m db)

  erase_spares : lookup t (erase t' db.threads_) ≡ lookup t db.threads_
  erase_spares = ground (arith, lookup-erase t' t db.threads_)

  logout_spares : lookup t (logout t' db).1.threads_ ≡ lookup t db.threads_
  unfolding logout
  logout_spares = ground (arith, erase_spares)

  login_spares : (u p : Str) → lookup t (login t' u p db).1.threads_ ≡ lookup t db.threads_
  unfolding login
  login_spares u p = ground (arith, lookup-insert unordered t' t u db.threads_)

  registration_spares :
      (u p : Str) → lookup t (registration u p db).1.threads_ ≡ lookup t db.threads_
  unfolding registration
  registration_spares u p = ground arith

  send_txt-Spares : (r txt : Str) → Spares (Method.send_txt r txt)
  unfolding perform send_txt
  send_txt-Spares r txt = Ends-option (lookup t' db.threads_) _ _ (Ends-done _ refl) λ me.
      Ends-bind {Q = λ u. Unit {0}} (user_at me db) _ (record { at = λ u e. tt })
        λ u q. Ends-option (lookup r db.users_) _ _ (Ends-done _ refl) λ v. Ends-done _ refl

  delete_user-Spares : Spares Method.delete_user
  unfolding perform delete_user
  delete_user-Spares = Ends-option (lookup t' db.threads_) _ _ (Ends-done _ refl) λ me.
      Ends-bind {Q = λ u. Unit {0}} (user_at me db) _ (record { at = λ u e. tt })
        λ u q.
          Ends-bind {Q = λ us. Unit {0}} (erase_chats me (order (keys u.chats_)) db.users_) _
            (record { at = λ us e. tt }) λ us q'. Ends-done _ erase_spares

  read-Spares {ℓ} :
      {A : Type ℓ} (o : Outcome A)
      → Ends
          (λ (r : A × Database). lookup t r.1.threads_ ≡ lookup t db.threads_)
          (o >>= λ a. done (a, db))
  read-Spares o =
      Ends-bind {Q = λ a. Unit {0}} o _ (record { at = λ a e. tt }) λ a q. Ends-done _ refl

  pub perform-Spares : (m : Method) → Spares m
  unfolding perform
  perform-Spares Method.is_logged_in = Ends-done _ refl
  perform-Spares Method.logout = Ends-done _ logout_spares
  perform-Spares Method.get_correspondents = read-Spares _
  perform-Spares Method.delete_user = delete_user-Spares
  perform-Spares (Method.login u p) = Ends-done _ (login_spares u p)
  perform-Spares (Method.registration u p) = Ends-done _ (registration_spares u p)
  perform-Spares (Method.send_txt r txt) = send_txt-Spares r txt
  perform-Spares (Method.get_usernames p) = Ends-done _ refl
  perform-Spares (Method.recv_txt u) = read-Spares _
