-- ===== src/Database/Deletion.antt =====
-- `delete_user`: what it leaves behind, and the ways in which a call does not return.
use chat.Common.{
  ◌≡◌, ◌≢◌, ◌⊎◌, refl, sym, subst, ◌∙◌, true, false, ◌||◌, Option, none, some, List, [], arith, Str,
  str_eq, str_eq_iff, str_Key, nat_Key, nat_eq, if◌then◌else◌, lookup, erase, is_some, keys,
  contains, contains-keys, lookup-erase, Option-cases, Bool-cases, inl, inr, Status, done, halt,
  out_of_range, dangling_iterator,
}
use chat.Database.{ThreadId, User, Database, delete_user, send_txt, user_at}
use chat.Database.View.{has, user_exists, has_chat, chat_of, texts_of-has}
use chat.Database.Invariant.{WellFormed}
use chat.Database.Erasing.{Erased, erase_chats-Erased, erase_chats_total, erase_chats_dangling}

-- What `db'` is, if thread `t` has deleted its user `me` from `db`.
pub record Deleted (t : ThreadId) (me : Str) (db db' : Database) : Type 0 where
  -- that user is gone, and no other
  pub users : (o : Str) → user_exists o db' ≡ (if str_eq me o then false else user_exists o db)
  -- so are both sides of his chats, and no other chat
  pub chats :
      (o x : Str)
      → has_chat o x db' ≡ (if str_eq me o || str_eq me x then false else has_chat o x db)
  pub texts :
      (o x : Str) → chat_of o x db' ≡ (if str_eq me o || str_eq me x then [] else chat_of o x db)
  -- the thread is logged out, and no other; the name stays taken
  pub threads :
      (s : ThreadId) → lookup s db'.threads_ ≡ (if nat_eq t s then none else lookup s db.threads_)
  pub names :
      (o : Str) (v : User)
      → lookup o db'.users_ ≡ some v
      → (u : User) × (lookup o db.users_ ≡ some u) × (v.username_ ≡ u.username_)
  pub history : db'.historical_users_ ≡ db.historical_users_

-- `order` walks each key of the map, and nothing else.
abbrev pub WalksKeys : (List Str → List Str) → Type 0
WalksKeys order = (ks : List Str) (k : Str) → contains k (order ks) ≡ contains k ks

module _ (order : List Str → List Str) (walks : WalksKeys order) (t : ThreadId) (me : Str)
    (u : User) (db : Database) (w : WellFormed db) (logged : lookup t db.threads_ ≡ some me)
    (found : lookup me db.users_ ≡ some u) where
  walked : (c : Str) → contains c (order (keys u.chats_)) ≡ has_chat me c db
  unfolding has
  walked c = ground (arith, walks (keys u.chats_) c, contains-keys c u.chats_)

  has-user : (a b : Str) → has_chat a b db ≡ true → user_exists a db ≡ true
  has-user a b h = ground arith

  correspondents_exist :
      (c : Str) → contains c (order (keys u.chats_)) ≡ true → is_some (lookup c db.users_) ≡ true
  correspondents_exist c h = has-user c me (w.paired c me ∙ sym (walked c) ∙ h)

  -- In a well-formed database, for a logged in user who has a chat with himself, the loop of
  -- `delete_user` goes on from an entry that it has erased.
  pub delete_user_dangling :
      has_chat me me db ≡ true → delete_user order t db ≡ halt dangling_iterator
  unfolding delete_user user_at
  delete_user_dangling self = ground (
    arith,
    erase_chats_dangling me (order (keys u.chats_)) db.users_ (walked me ∙ self)
        correspondents_exist,
  )

  erased-Deleted :
      (us : List (Str × User))
      → Erased me (order (keys u.chats_)) db.users_ us
      → Deleted t me db (record db { users_ = erase me us; threads_ = erase t db.threads_ })
  erased-Deleted us e = record {
    users = λ o. ground (arith, lookup-erase me o us, e.users o);
    chats = λ o x.
        ground (arith, lookup-erase me o us, e.chats o x, walked o, w.paired o me, str_eq_iff me x);
    texts = λ o x. ground (
      arith,
      lookup-erase me o us,
      e.texts o x,
      walked o,
      w.paired o me,
      str_eq_iff me x,
      no_texts o,
    );
    threads = λ s. lookup-erase t s db.threads_;
    names = λ o v h. e.names o v (ground (arith, lookup-erase me o us));
    history = refl;
  }
    where
      no_texts : (o : Str) → has_chat o me db ≡ false → chat_of o me db ≡ []
      no_texts o h = elim (Option-cases (lookup o db.users_)) [
        | inl n ↦ ground arith
        | inr (v, s) ↦ ground (arith, texts_of-has v me)
      ]

  -- In a well-formed database, for a logged in user who has no chat with himself, `delete_user`
  -- returns OK, and has deleted the user and both sides of his chats, and nothing of other users.
  pub delete_user-Deleted :
      has_chat me me db ≡ false
      → (db' : Database) × (delete_user order t db ≡ done (Status.ok, db')) × Deleted t me db db'
  unfolding delete_user user_at
  delete_user-Deleted self =
      let (us, e) =
        erase_chats_total me (order (keys u.chats_)) db.users_ (walked me ∙ self)
          correspondents_exist in
      (
        record db { users_ = erase me us; threads_ = erase t db.threads_ },
        ground (arith, e),
        erased-Deleted us (erase_chats-Erased me (order (keys u.chats_)) db.users_ us e),
      )

Deleted-WellFormed :
    {t : ThreadId} {me : Str} {db db' : Database}
    → WellFormed db
    → Deleted t me db db'
    → WellFormed db'
Deleted-WellFormed {t} {me} {db} {db'} w d = record {
  named = λ a v h. let (u, s, n) = d.names a v h in n ∙ w.named a u s;
  known = λ a h. ground (arith, d.users a, d.history, w.known a);
  acting = λ s a h. ground (arith, d.threads s, d.history, w.acting s a);
  paired = λ a b. ground (arith, d.chats a b, d.chats b a, w.paired a b);
  mirrored = λ a b n. ground (arith, d.texts a b, d.texts b a, w.mirrored a b n);
}

-- What `delete_user` returns tells what it has done.
pub delete_user_cases :
    (order : List Str → List Str) (t : ThreadId) (db db' : Database) (s : Status)
    → WalksKeys order
    → WellFormed db
    → delete_user order t db ≡ done (s, db')
    → ((s ≡ Status.error) × (db' ≡ db))
      ⊎ ((me : Str) × (s ≡ Status.ok) × (lookup t db.threads_ ≡ some me) × Deleted t me db db')
unfolding delete_user user_at
delete_user_cases order t db db' s walks w h = elim (Option-cases (lookup t db.threads_)) [
  | inl e ↦ inl (ground arith, ground arith)
  | inr (me, e) ↦ elim (Option-cases (lookup me db.users_)) [
    | inl f ↦ absurd (ground arith)
    | inr (u, f) ↦ elim (Bool-cases (has_chat me me db)) [
      | inl self ↦ absurd (ground (arith, delete_user_dangling order walks t me u db w e f self))
      | inr plain ↦
          let (db1, r, d) = delete_user-Deleted order walks t me u db w e f plain in
          inr (me, ground (arith, r), e, subst (Deleted t me db) (ground (arith, r)) d)
    ]
  ]
]

-- A call of `delete_user` that returns has changed nothing, or has deleted the user.
pub delete_user_inv :
    (order : List Str → List Str) (t : ThreadId) (db db' : Database) (s : Status)
    → WalksKeys order
    → WellFormed db
    → delete_user order t db ≡ done (s, db')
    → (db' ≡ db) ⊎ ((me : Str) × Deleted t me db db')
delete_user_inv order t db db' s walks w h = elim (delete_user_cases order t db db' s walks w h) [
  | inl (e, same) ↦ inl same
  | inr (me, e, acts, d) ↦ inr (me, d)
]

pub delete_user-WellFormed :
    (order : List Str → List Str) (t : ThreadId) (db db' : Database) (s : Status)
    → WalksKeys order
    → WellFormed db
    → delete_user order t db ≡ done (s, db')
    → WellFormed db'
delete_user-WellFormed order t db db' s walks w h =
    elim (delete_user_inv order t db db' s walks w h) [
      | inl e ↦ rw e w
      | inr (me, d) ↦ Deleted-WellFormed w d
    ]

Deleted-send_txt :
    (t s : ThreadId) (me r txt : Str) (db db' : Database)
    → Deleted t me db db'
    → t ≢ s
    → lookup s db.threads_ ≡ some me
    → send_txt s r txt db' ≡ halt out_of_range
unfolding send_txt user_at
Deleted-send_txt t s me r txt db db' d other acts =
    ground (arith, d.threads s, d.users me, str_eq_iff me me)

-- In a well-formed database in which two threads act for the same user: if `delete_user` of the one
-- returns OK, then the next `send_txt` of the other calls `at` for a user who is gone, and nothing
-- catches the exception.
pub send_txt_after_delete :
    (order : List Str → List Str) (t s : ThreadId) (me r txt : Str) (db db' : Database)
    → WalksKeys order
    → WellFormed db
    → lookup t db.threads_ ≡ some me
    → lookup s db.threads_ ≡ some me
    → t ≢ s
    → delete_user order t db ≡ done (Status.ok, db')
    → send_txt s r txt db' ≡ halt out_of_range
send_txt_after_delete order t s me r txt db db' walks w mine too other h =
    elim (delete_user_cases order t db db' Status.ok walks w h) [
      | inl (e, same) ↦ absurd (cc)
      | inr (a, e, acts, d) ↦
          let one : ◌≡◌ {A = Option Str} (some a) (some me) = sym acts ∙ mine in
          Deleted-send_txt t s me r txt db db' (subst (λ o. Deleted t o db db') (cc (one)) d) other
            too
    ]
