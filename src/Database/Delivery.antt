-- ===== src/Database/Delivery.antt =====
-- A text on its way from `send_txt` of one thread to `recv_txt` of another.
use chat.Common.{
  ◌≡◌, ◌≢◌, true, some, List, [], ◌∷◌, ◌++◌, arith, Str, str_eq_iff, str_Key, nat_Key, lookup,
  Option-cases, inl, inr, Status, done, ap, sym, ◌∙◌, done_inj,
}
use chat.Chat.{Text, Chat, sender_other}
use chat.Database.{ThreadId, Database, send_txt, recv_txt, user_at}
use chat.Database.View.{texts_of, user_exists, chat_of}
use chat.Database.Sending.{sent, added, chat_of-sent, user_exists-sent, send_txt-sent}
use chat.Database.Invariant.{WellFormed}

-- A logged in user who asks for the texts of an existing user is given his side of their chat,
-- whatever chat the caller passed in.
pub recv_txt-chat_of :
    (t : ThreadId) (me o : Str) (c : Chat) (db : Database)
    → lookup t db.threads_ ≡ some me
    → user_exists me db ≡ true
    → user_exists o db ≡ true
    → recv_txt t o c db ≡ done (Status.ok, record { texts_ = chat_of me o db })
unfolding recv_txt user_at texts_of
recv_txt-chat_of t me o c db acts here there = elim (Option-cases (lookup me db.users_)) [
  | inl n ↦ absurd (ground arith)
  | inr (u, e) ↦ elim (Option-cases (lookup o u.chats_)) [
    | inl n ↦ ground arith
    | inr (stored, e') ↦ ground arith
  ]
]

send_txt_as_sent :
    (t : ThreadId) (me r txt : Str) (db : Database)
    → WellFormed db
    → lookup t db.threads_ ≡ some me
    → user_exists me db ≡ true
    → user_exists r db ≡ true
    → send_txt t r txt db ≡ done (Status.ok, sent me r txt db)
send_txt_as_sent t me r txt db w acts here there = elim (Option-cases (lookup me db.users_)) [
  | inl n ↦ absurd (ground arith)
  | inr (u, e) ↦ send_txt-sent me r txt t db u acts e (w.named me u e) there
]

-- A logged in user of a well-formed database who sends to an existing user succeeds, and adds the
-- text to his side and to the other side of their chat, and to no other chat.
pub send_txt_delivers :
    (t : ThreadId) (me r txt : Str) (db : Database)
    → WellFormed db
    → lookup t db.threads_ ≡ some me
    → user_exists me db ≡ true
    → user_exists r db ≡ true
    → (db' : Database) × (send_txt t r txt db ≡ done (Status.ok, db'))
      × ((o x : Str) → chat_of o x db' ≡ chat_of o x db ++ added me r txt o x)
send_txt_delivers t me r txt db w acts here there = (
  sent me r txt db,
  send_txt_as_sent t me r txt db w acts here there,
  chat_of-sent me r txt db here there,
)

recv_txt-sent :
    (s : ThreadId) (me r txt : Str) (c : Chat) (db : Database)
    → lookup s db.threads_ ≡ some r
    → user_exists me db ≡ true
    → user_exists r db ≡ true
    → me ≢ r
    → recv_txt s me c (sent me r txt db)
      ≡ done (
        Status.ok,
        record {
          texts_ = chat_of r me db ++ (record { sender_ = sender_other; content_ = txt } ∷ []);
        },
      )
recv_txt-sent s me r txt c db reads here there differ =
    recv_txt-chat_of s r me c (sent me r txt db) reads
      (user_exists-sent me r txt db here there r ∙ there)
      (user_exists-sent me r txt db here there me ∙ here)
    ∙ ap (λ (ts : List Text). done (Status.ok, record { texts_ = ts }))
        (ground (
          arith,
          chat_of-sent me r txt db here there r me,
          str_eq_iff me r,
          str_eq_iff me me,
          str_eq_iff r r,
        ))

-- In a well-formed database thread `t` acts for the existing user `me`, and thread `s` for another
-- existing user `r`. After a `send_txt` of `t` to `r` that returned OK, `recv_txt` of `s` returns OK
-- with the texts that `r` had in the chat before and the new text behind them, marked as the other's.
pub recv_txt-send_txt :
    (t s : ThreadId) (me r txt : Str) (c : Chat) (db db' : Database)
    → WellFormed db
    → lookup t db.threads_ ≡ some me
    → lookup s db.threads_ ≡ some r
    → user_exists me db ≡ true
    → user_exists r db ≡ true
    → me ≢ r
    → send_txt t r txt db ≡ done (Status.ok, db')
    → recv_txt s me c db'
      ≡ done (
        Status.ok,
        record {
          texts_ = chat_of r me db ++ (record { sender_ = sender_other; content_ = txt } ∷ []);
        },
      )
recv_txt-send_txt t s me r txt c db db' w acts reads here there differ h =
    rw (ap snd_of (done_inj (sym h ∙ send_txt_as_sent t me r txt db w acts here there)))
      (recv_txt-sent s me r txt c db reads here there differ)
  where
    snd_of : Status × Database → Database
    snd_of p = p.1
