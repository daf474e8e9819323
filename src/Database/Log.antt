-- ===== src/Database/Log.antt =====
-- The database of src/server/database.cc against a log of the texts that were sent.
use chat.Common.{
  ◌≡◌, refl, sym, ap, subst, ◌∙◌, true, ◌||◌, Option, none, some, List, [], ◌∷◌, ◌++◌, arith, Str,
  str_eq, str_eq_iff, str_Key, nat_Key, if◌then◌else◌, lookup, inl, inr, Status, Outcome, done,
  ◌>>=◌, done_inj, bind_done, append-nil, lookup-insert, str_lt,
}
use chat.Chat.{Text, Chat}
use chat.Database.{
  ThreadId, Database, empty, login, registration, logout, send_txt, delete_user, recv_txt,
}
use chat.Database.View.{user_exists, chat_of, texts_of}
use chat.Database.Sending.{added, chat_of-sent}
use chat.Database.Invariant.{WellFormed, empty-WellFormed, send_txt_cases}
use chat.Database.Deletion.{WalksKeys, delete_user_cases}
use chat.Database.Delivery.{recv_txt-chat_of}
use chat.Database.Steps.{Reach-WellFormed}
use chat.Database.Methods.{Method, Reply, perform, perform-Reach}

-- A text on record: who sent it, and to whom.
pub record Sent : Type 0 where
  pub from : Str
  pub to : Str
  pub content : Str

-- The chat of `a` with `b` by the log, the latest entry in front. A text that a user sends to himself
-- stands there twice.
unfoldable pub told : Str → Str → List Sent → List Text
told a b [] = []
told a b (e ∷ l) = told a b l ++ added e.from e.to e.content a b

-- The log with no entry from or to a user who was deleted.
unfoldable pub forget : Str → List Sent → List Sent
forget me [] = []
forget me (e ∷ l) =
    let rest = forget me l in if str_eq e.from me || str_eq e.to me then rest else e ∷ rest

abbrev pub acting : Option Str → List Sent → (Str → List Sent) → List Sent
acting none l f = l
acting (some me) l f = f me

abbrev pub if_ok : Status → List Sent → List Sent → List Sent
if_ok Status.ok l l' = l
if_ok s l l' = l'

-- What a method that has returned adds to the log, or takes away.
abbrev pub note : (m : Method) → Reply m → Option Str → List Sent → List Sent
note (Method.send_txt r txt) s who l =
    if_ok s (acting who l λ me. record { from = me; to = r; content = txt } ∷ l) l
note Method.delete_user s who l = if_ok s (acting who l λ me. forget me l) l
note m s who l = l

-- The databases that any threads reach with any methods from the empty one, with the log so far.
pub data Logged : List Sent → Database → Type 0 where
  nothing_sent : Logged [] empty
  performed :
      (l : List Sent) (db : Database) (order : List Str → List Str) (t : ThreadId) (m : Method)
      (r : Reply m) (db' : Database)
      → Logged l db
      → WalksKeys order
      → perform order t m db ≡ done (r, db')
      → Logged (note m r (lookup t db.threads_) l) db'

pub Logged-WellFormed : {l : List Sent} {db : Database} → Logged l db → WellFormed db
Logged-WellFormed nothing_sent = empty-WellFormed
Logged-WellFormed (performed l db order t m r db' h walks e) =
    Reach-WellFormed (Logged-WellFormed h) ((perform-Reach order walks t db m).at _ e)

told-forget :
    (a b me : Str) (l : List Sent)
    → told a b (forget me l) ≡ (if str_eq me a || str_eq me b then [] else told a b l)
unfolding told forget
told-forget a b me [] = ground arith
told-forget a b me (e ∷ l) = ground (
  arith,
  told-forget a b me l,
  append-nil (told a b l),
  str_eq_iff me a,
  str_eq_iff me b,
  str_eq_iff e.from me,
  str_eq_iff e.to me,
  str_eq_iff e.from a,
  str_eq_iff e.to a,
  str_eq_iff e.from b,
  str_eq_iff e.to b,
)

module _ (db : Database) where
  registration_texts : (u p a b : Str) → chat_of a b (registration u p db).1 ≡ chat_of a b db
  unfolding registration texts_of lookup
  registration_texts u p a b = ground (
    arith,
    str_eq_iff u a,
    lookup-insert str_lt u a (record { username_ = u; password_ = p; chats_ = [] }) db.users_,
  )

  login_texts : (t : ThreadId) (u p a b : Str) → chat_of a b (login t u p db).1 ≡ chat_of a b db
  unfolding login
  login_texts t u p a b = ground arith

  logout_texts : (t : ThreadId) (a b : Str) → chat_of a b (logout t db).1 ≡ chat_of a b db
  unfolding logout
  logout_texts t a b = ground arith

-- The log after a successful `send_txt` and after a successful `delete_user`.
module _ (a b : Str) (l : List Sent) where
  send_noted :
      (db db' : Database) (t : ThreadId) (r txt : Str) (s : Status)
      → WellFormed db
      → chat_of a b db ≡ told a b l
      → send_txt t r txt db ≡ done (s, db')
      → chat_of a b db' ≡ told a b (note (Method.send_txt r txt) s (lookup t db.threads_) l)
  unfolding told
  send_noted db db' t r txt s w same h = elim (send_txt_cases w t r txt s db' h) [
    | inl (e, d) ↦ rw (e, d) same
    | inr (me, e, acts, f, g, d) ↦
        rw (e, acts, d)
          (chat_of-sent me r txt db f g a b ∙ ap (λ ts. ts ++ added me r txt a b) same)
  ]

  delete_noted :
      (db db' : Database) (order : List Str → List Str) (t : ThreadId) (s : Status)
      → WalksKeys order
      → WellFormed db
      → chat_of a b db ≡ told a b l
      → delete_user order t db ≡ done (s, db')
      → chat_of a b db' ≡ told a b (note Method.delete_user s (lookup t db.threads_) l)
  delete_noted db db' order t s walks w same h =
      elim (delete_user_cases order t db db' s walks w h) [
        | inl (e, d) ↦ rw (e, d) same
        | inr (me, e, acts, d) ↦
            rw (e, acts)
              (d.texts a b
                ∙ ap (λ ts. if str_eq me a || str_eq me b then [] else ts) same
                ∙ sym (told-forget a b me l))
      ]

  read_noted :
      {A : Type 0} (db db' : Database) (o : Outcome A) (r : A)
      → chat_of a b db ≡ told a b l
      → ◌>>=◌ {B = A × Database} o (λ x. done (x, db)) ≡ done (r, db')
      → chat_of a b db' ≡ told a b l
  read_noted db db' o r same h =
      let (x, e1, e2) = bind_done o _ _ h in
      subst (λ d. chat_of a b d ≡ told a b l) (ap (λ z. z.1) (done_inj e2)) same

  perform_noted :
      (db db' : Database) (order : List Str → List Str) (t : ThreadId) (m : Method) (r : Reply m)
      → WalksKeys order
      → WellFormed db
      → chat_of a b db ≡ told a b l
      → perform order t m db ≡ done (r, db')
      → chat_of a b db' ≡ told a b (note m r (lookup t db.threads_) l)
  unfolding perform
  perform_noted db db' order t Method.is_logged_in r walks w same h =
      subst (λ d. chat_of a b d ≡ told a b l) (ap (λ z. z.1) (done_inj h)) same
  perform_noted db db' order t Method.logout r walks w same h =
      subst (λ d. chat_of a b d ≡ told a b l) (ap (λ z. z.1) (done_inj h))
        (logout_texts db t a b ∙ same)
  perform_noted db db' order t Method.get_correspondents r walks w same h =
      read_noted db db' _ r same h
  perform_noted db db' order t Method.delete_user r walks w same h =
      delete_noted db db' order t r walks w same h
  perform_noted db db' order t (Method.login u p) r walks w same h =
      subst (λ d. chat_of a b d ≡ told a b l) (ap (λ z. z.1) (done_inj h))
        (login_texts db t u p a b ∙ same)
  perform_noted db db' order t (Method.registration u p) r walks w same h =
      subst (λ d. chat_of a b d ≡ told a b l) (ap (λ z. z.1) (done_inj h))
        (registration_texts db u p a b ∙ same)
  perform_noted db db' order t (Method.send_txt c txt) r walks w same h =
      send_noted db db' t c txt r w same h
  perform_noted db db' order t (Method.get_usernames p) r walks w same h =
      subst (λ d. chat_of a b d ≡ told a b l) (ap (λ z. z.1) (done_inj h)) same
  perform_noted db db' order t (Method.recv_txt u) r walks w same h = read_noted db db' _ r same h

chat_of-told :
    (a b : Str) {l : List Sent} {db : Database} → Logged l db → chat_of a b db ≡ told a b l
unfolding told lookup
chat_of-told a b nothing_sent = refl
chat_of-told a b (performed l db order t m r db' h walks e) =
    perform_noted a b l db db' order t m r walks (Logged-WellFormed h) (chat_of-told a b h) e

-- Whatever methods any threads have performed since the database was empty: a thread that acts for
-- an existing user and asks for the texts of another, or of himself, is given just those on record
-- between the two, each marked as his or the other's, in the order in which they were sent. On
-- record is what `send_txt` has accepted, but for the texts from or to a user deleted since.
pub recv_txt-told :
    (l : List Sent) (db : Database) (t : ThreadId) (me o : Str) (c : Chat)
    → Logged l db
    → lookup t db.threads_ ≡ some me
    → user_exists me db ≡ true
    → user_exists o db ≡ true
    → recv_txt t o c db ≡ done (Status.ok, record { texts_ = told me o l })
recv_txt-told l db t me o c h acts here there =
    recv_txt-chat_of t me o c db acts here there
    ∙ ap (λ (ts : List Text). done (Status.ok, record { texts_ = ts })) (chat_of-told me o h)
