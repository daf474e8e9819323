-- ===== src/Database/Invariant.antt =====
-- What every method keeps of the database.
use chat.Common.{
  ◌≡◌, ◌≢◌, ◌⊎◌, refl, sym, ap, ◌∙◌, true, none, some, List, [], ◌∷◌, ◌++◌, arith, Str, str_eq,
  str_lt, str_eq_iff, str_Key, nat_Key, nat_eq, if◌then◌else◌, lookup, insert, unordered, contains,
  contains-cons, lookup-insert, lookup-erase, Option-cases, Bool-cases, inl, inr, Status, done,
}
use chat.Chat.{Text, sender_you, sender_other}
use chat.Database.{ThreadId, User, Database, empty, login, registration, logout, send_txt, user_at}
use chat.Database.View.{texts_of, has, user_exists, has_chat, chat_of}
use chat.Database.Sending.{
  sent, added, chat_of-sent, has_chat-sent, user_exists-sent, username-sent,
}

-- The other side's view of a text.
abbrev pub mirror_text : Text → Text
mirror_text t = record t {
  sender_ = if nat_eq t.sender_ sender_you then sender_other else sender_you;
}

abbrev pub mirror : List Text → List Text
mirror [] = []
mirror (t ∷ ts) = mirror_text t ∷ mirror ts

mirror-append : (xs ys : List Text) → mirror (xs ++ ys) ≡ mirror xs ++ mirror ys
mirror-append [] ys = refl
mirror-append (x ∷ xs) ys = ap (◌∷◌ (mirror_text x)) (mirror-append xs ys)

pub record WellFormed (db : Database) : Type 0 where
  -- a user is stored under his name
  pub named : (a : Str) (u : User) → lookup a db.users_ ≡ some u → u.username_ ≡ a
  -- every user, and every name that a thread acts for, was registered
  pub known : (a : Str) → user_exists a db ≡ true → contains a db.historical_users_ ≡ true
  pub acting :
      (t : ThreadId) (a : Str)
      → lookup t db.threads_ ≡ some a
      → contains a db.historical_users_ ≡ true
  -- a chat has two sides, which tell the same texts in the same order
  pub paired : (a b : Str) → has_chat a b db ≡ has_chat b a db
  pub mirrored : (a b : Str) → a ≢ b → chat_of b a db ≡ mirror (chat_of a b db)

pub empty-WellFormed : WellFormed empty
unfolding contains lookup
empty-WellFormed = record {
  named = λ a u e. ground arith;
  known = λ a e. ground arith;
  acting = λ t a e. ground arith;
  paired = λ a b. refl;
  mirrored = λ a b n. refl;
}

-- The database behind a successful registration.
abbrev pub registered : Str → Str → Database → Database
registered a p db = record db {
  users_ = insert str_lt a (record { username_ = a; password_ = p; chats_ = [] }) db.users_;
  historical_users_ = a ∷ db.historical_users_;
}

lookup-registered :
    (a p : Str) (db : Database)
    → lookup a db.users_ ≡ none
    → (b : Str)
    → lookup b (registered a p db).users_ ≡ (
        if str_eq a b
        then some (record { username_ = a; password_ = p; chats_ = [] })
        else lookup b db.users_)
lookup-registered a p db fresh b = lookup-insert str_lt a b _ db.users_ fresh

module _ {db : Database} (w : WellFormed db) where
  sent-WellFormed :
      (me r txt : Str)
      → user_exists me db ≡ true
      → user_exists r db ≡ true
      → WellFormed (sent me r txt db)
  sent-WellFormed me r txt e f = record {
    named = λ a u h. let (u0, s, n) = username-sent me r txt db a u h in n ∙ w.named a u0 s;
    known = λ a h. w.known a (sym (user_exists-sent me r txt db e f a) ∙ h);
    acting = w.acting;
    paired = λ a b.
        ground (
          arith,
          has_chat-sent me r txt db e f a b,
          has_chat-sent me r txt db e f b a,
          w.paired a b,
        );
    mirrored = λ a b n. ground (
      arith,
      chat_of-sent me r txt db e f a b,
      chat_of-sent me r txt db e f b a,
      w.mirrored a b n,
      mirror-append (chat_of a b db) (added me r txt a b),
      str_eq_iff me a,
      str_eq_iff me b,
      str_eq_iff r a,
      str_eq_iff r b,
    );
  }

  -- Logging in keeps the database well formed, whether it succeeds or fails.
  pub login-WellFormed : (t : ThreadId) (a p : Str) → WellFormed (login t a p db).1
  unfolding login
  login-WellFormed t a p = elim (Option-cases (lookup t db.threads_)) [
    | inr (b, e) ↦ rw (e, login) w
    | inl out ↦ elim (Option-cases (lookup a db.users_)) [
      | inl e ↦ rw (out, e, login) w
      | inr (u, e) ↦ elim (Bool-cases (str_eq p u.password_)) [
        | inl right ↦
            rw (out, e, right)
              (record {
                named = w.named;
                known = w.known;
                acting = λ s b h.
                    ground
                      (arith, lookup-insert unordered t s a db.threads_, w.acting s b, w.known a);
                paired = w.paired;
                mirrored = w.mirrored;
              })
        | inr wrong ↦ rw (out, e, wrong) w
      ]
    ]
  ]

  pub logout-WellFormed : (t : ThreadId) → WellFormed (logout t db).1
  unfolding logout
  logout-WellFormed t = elim (Option-cases (lookup t db.threads_)) [
    | inl e ↦ rw (e, logout) w
    | inr (b, e) ↦
        rw (e, logout)
          (record {
            named = w.named;
            known = w.known;
            acting = λ s c h. ground (arith, lookup-erase t s db.threads_, w.acting s c);
            paired = w.paired;
            mirrored = w.mirrored;
          })
  ]

  registered-WellFormed : (a p : Str) → lookup a db.users_ ≡ none → WellFormed (registered a p db)
  unfolding has texts_of lookup
  registered-WellFormed a p fresh = record {
    named = λ b u h. ground (arith, lookup-registered a p db fresh b, w.named b u, str_eq_iff a b);
    known = λ b h. ground (
      arith,
      lookup-registered a p db fresh b,
      w.known b,
      str_eq_iff a b,
      contains-cons b a db.historical_users_,
    );
    acting = λ t b h. ground (arith, w.acting t b, contains-cons b a db.historical_users_);
    paired = λ x y. ground (
      arith,
      lookup-registered a p db fresh x,
      lookup-registered a p db fresh y,
      str_eq_iff a x,
      str_eq_iff a y,
      w.paired x y,
    );
    mirrored = λ x y n. ground (
      arith,
      lookup-registered a p db fresh x,
      lookup-registered a p db fresh y,
      str_eq_iff a x,
      str_eq_iff a y,
      w.mirrored x y n,
      w.mirrored y x (λ e. n (sym e)),
    );
  }

  pub registration-WellFormed : (a p : Str) → WellFormed (registration a p db).1
  unfolding registration
  registration-WellFormed a p = elim (Option-cases (lookup a db.users_)) [
    | inr (u, e) ↦ rw e w
    | inl fresh ↦ elim (Bool-cases (contains a db.historical_users_)) [
      | inl old ↦ rw (fresh, old) w
      | inr new ↦ rw (fresh, new) (registered-WellFormed a p fresh)
    ]
  ]

  -- What `send_txt` returns tells what it has done.
  pub send_txt_cases :
      (t : ThreadId) (r txt : Str) (s : Status) (db' : Database)
      → send_txt t r txt db ≡ done (s, db')
      → ((s ≡ Status.error) × (db' ≡ db))
        ⊎ ((me : Str) × (s ≡ Status.ok)
            × (lookup t db.threads_ ≡ some me)
            × (user_exists me db ≡ true)
            × (user_exists r db ≡ true)
            × (db' ≡ sent me r txt db))
  unfolding send_txt user_at
  send_txt_cases t r txt s db' h = elim (Option-cases (lookup t db.threads_)) [
    | inl e ↦ inl (ground arith, ground arith)
    | inr (me, e) ↦ elim (Option-cases (lookup me db.users_)) [
      | inl f ↦ absurd (ground arith)
      | inr (u, f) ↦ elim (Option-cases (lookup r db.users_)) [
        | inl g ↦ inl (ground arith, ground arith)
        | inr (v, g) ↦
            inr (me, ground arith, e, ground arith, ground arith, ground (arith, w.named me u))
      ]
    ]
  ]

  -- A call of `send_txt` that returns has changed nothing, or has sent the text.
  pub send_txt_inv :
      (t : ThreadId) (r txt : Str) (s : Status) (db' : Database)
      → send_txt t r txt db ≡ done (s, db')
      → (db' ≡ db)
        ⊎ ((me : Str) × (user_exists me db ≡ true)
            × (user_exists r db ≡ true)
            × (db' ≡ sent me r txt db))
  send_txt_inv t r txt s db' h = elim (send_txt_cases t r txt s db' h) [
    | inl (e, same) ↦ inl same
    | inr (me, e, acts, f, g, d) ↦ inr (me, f, g, d)
  ]

  pub send_txt-WellFormed :
      (t : ThreadId) (r txt : Str) (s : Status) (db' : Database)
      → send_txt t r txt db ≡ done (s, db')
      → WellFormed db'
  send_txt-WellFormed t r txt s db' h = elim (send_txt_inv t r txt s db' h) [
    | inl e ↦ rw e w
    | inr (me, e, f, g) ↦ rw g (sent-WellFormed me r txt e f)
  ]
