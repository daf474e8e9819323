-- ===== src/Database/Sending.antt =====
-- `send_txt` and `recv_txt`: what is stored, and what is read back.
use mathlib.Core.Option
use chat.Common.{
  ◌≡◌, refl, Bool, true, false, ◌&&◌, ◌||◌, some, List, [], ◌∷◌, ◌++◌, arith, Str, str_eq,
  str_eq_iff, str_Key, if◌then◌else◌, lookup, modify, lookup-modify, Option-cases, inl, inr,
  append_assoc, append-nil, nat_Key, Status, done,
}
use chat.Chat.{Text, sender_you, sender_other}
use chat.Database.{ThreadId, User, Database, ensure_chat, push_text, exchange, send_txt, user_at}
use chat.Database.View.{
  texts_of, has, user_exists, has_chat, chat_of, texts_of-ensure_chat, has-ensure_chat,
  texts_of-push_text, has-push_text,
}

module _ (me r txt : Str) where
  abbrev yours : Text
  yours = record { sender_ = sender_you; content_ = txt }

  abbrev theirs : Text
  theirs = record { sender_ = sender_other; content_ = txt }

  -- The user `o` behind the four changes, where `o` may be the sender, the recipient, both, or neither.
  abbrev changed : Bool → Bool → User → User
  changed true true u = push_text me theirs (push_text r yours (ensure_chat me (ensure_chat r u)))
  changed true false u = push_text r yours (ensure_chat r u)
  changed false true u = push_text me theirs (ensure_chat me u)
  changed false false u = u

  lookup-exchange :
      (o : Str) (us : List (Str × User))
      → lookup o (exchange me me r txt us)
        ≡ Option.map (changed (str_eq me o) (str_eq r o)) (lookup o us)
  unfolding exchange
  lookup-exchange o us = ground (
    arith,
    lookup-modify r o (push_text me theirs)
        (modify me (push_text r yours) (modify r (ensure_chat me) (modify me (ensure_chat r) us))),
    lookup-modify me o (push_text r yours)
        (modify r (ensure_chat me) (modify me (ensure_chat r) us)),
    lookup-modify r o (ensure_chat me) (modify me (ensure_chat r) us),
    lookup-modify me o (ensure_chat r) us,
    str_eq_iff me o,
    str_eq_iff r o,
  )

  -- What one call adds to the chat of `o` with `x`.
  abbrev pub added : Str → Str → List Text
  added o x =
      (if str_eq me o && str_eq r x then yours ∷ [] else [])
      ++ (if str_eq r o && str_eq me x then theirs ∷ [] else [])

  texts_of-changed :
      (a b : Bool) (u : User) (x : Str)
      → texts_of (changed a b u) x
        ≡ texts_of u x
          ++ ((if a && str_eq r x then yours ∷ [] else [])
              ++ (if b && str_eq me x then theirs ∷ [] else []))
  texts_of-changed true true u x = ground (
    arith,
    texts_of-push_text me x (push_text r yours (ensure_chat me (ensure_chat r u))) theirs,
    has-push_text r me (ensure_chat me (ensure_chat r u)) yours,
    has-ensure_chat me me (ensure_chat r u),
    texts_of-push_text r x (ensure_chat me (ensure_chat r u)) yours,
    has-ensure_chat me r (ensure_chat r u),
    has-ensure_chat r r u,
    texts_of-ensure_chat me x (ensure_chat r u),
    texts_of-ensure_chat r x u,
    str_eq_iff me me,
    str_eq_iff r r,
    append_assoc (texts_of u x) (yours ∷ []) (theirs ∷ []),
    append-nil (texts_of u x),
  )
  texts_of-changed true false u x = ground (
    arith,
    texts_of-push_text r x (ensure_chat r u) yours,
    has-ensure_chat r r u,
    texts_of-ensure_chat r x u,
    str_eq_iff r r,
    append-nil (texts_of u x),
  )
  texts_of-changed false true u x = ground (
    arith,
    texts_of-push_text me x (ensure_chat me u) theirs,
    has-ensure_chat me me u,
    texts_of-ensure_chat me x u,
    str_eq_iff me me,
    append-nil (texts_of u x),
  )
  texts_of-changed false false u x = ground (arith, append-nil (texts_of u x))

  has-changed :
      (a b : Bool) (u : User) (x : Str)
      → has (changed a b u) x ≡ (a && str_eq r x || b && str_eq me x || has u x)
  has-changed true true u x = ground (
    arith,
    has-push_text me x (push_text r yours (ensure_chat me (ensure_chat r u))) theirs,
    has-push_text r x (ensure_chat me (ensure_chat r u)) yours,
    has-ensure_chat me x (ensure_chat r u),
    has-ensure_chat r x u,
  )
  has-changed true false u x =
      ground (arith, has-push_text r x (ensure_chat r u) yours, has-ensure_chat r x u)
  has-changed false true u x =
      ground (arith, has-push_text me x (ensure_chat me u) theirs, has-ensure_chat me x u)
  has-changed false false u x = refl

  -- The database behind a successful call.
  abbrev pub sent : Database → Database
  sent db = record db { users_ = exchange me me r txt db.users_ }

  module _ (db : Database) (me_exists : user_exists me db ≡ true)
      (r_exists : user_exists r db ≡ true) where
    pub chat_of-sent : (o x : Str) → chat_of o x (sent db) ≡ chat_of o x db ++ added o x
    chat_of-sent o x = elim (Option-cases (lookup o db.users_)) [
      | inl e ↦ rw (lookup-exchange o db.users_) (ground (arith, str_eq_iff me o, str_eq_iff r o))
      | inr (u, e) ↦
          rw (lookup-exchange o db.users_)
            (ground (arith, texts_of-changed (str_eq me o) (str_eq r o) u x))
    ]

    pub has_chat-sent :
        (o x : Str)
        → has_chat o x (sent db)
          ≡ (str_eq me o && str_eq r x || str_eq r o && str_eq me x || has_chat o x db)
    has_chat-sent o x = elim (Option-cases (lookup o db.users_)) [
      | inl e ↦ rw (lookup-exchange o db.users_) (ground (arith, str_eq_iff me o, str_eq_iff r o))
      | inr (u, e) ↦
          rw (lookup-exchange o db.users_)
            (ground (arith, has-changed (str_eq me o) (str_eq r o) u x))
    ]

    pub user_exists-sent : (o : Str) → user_exists o (sent db) ≡ user_exists o db
    user_exists-sent o = ground (arith, lookup-exchange o db.users_)

  -- A thread that is logged in as an existing user sends to an existing user: the call succeeds.
  pub send_txt-sent :
      (t : ThreadId) (db : Database) (s : User)
      → lookup t db.threads_ ≡ some me
      → lookup me db.users_ ≡ some s
      → s.username_ ≡ me
      → user_exists r db ≡ true
      → send_txt t r txt db ≡ done (Status.ok, sent db)
  unfolding send_txt user_at
  send_txt-sent t db s logged found named there = ground arith

  username-changed : (a b : Bool) (u : User) → (changed a b u).username_ ≡ u.username_
  unfolding ensure_chat push_text
  username-changed true true u = ground arith
  username-changed true false u = ground arith
  username-changed false true u = ground arith
  username-changed false false u = refl

  -- No user's own name changes.
  pub username-sent :
      (db : Database) (o : Str) (u' : User)
      → lookup o (sent db).users_ ≡ some u'
      → (u : User) × (lookup o db.users_ ≡ some u) × (u'.username_ ≡ u.username_)
  username-sent db o u' e = elim (Option-cases (lookup o db.users_)) [
    | inl n ↦ absurd (ground (arith, lookup-exchange o db.users_))
    | inr (u, s) ↦ (
      u,
      s,
      ground (arith, lookup-exchange o db.users_, username-changed (str_eq me o) (str_eq r o) u),
    )
  ]
