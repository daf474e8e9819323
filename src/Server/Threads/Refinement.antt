-- ===== src/Server/Threads/Refinement.antt =====
-- The threads of src/server/server.cc against a server that serves every request at once.
use chat.Common.{◌≡◌, refl, sym, ap, subst, ◌∙◌, false, List, [], ◌∷◌, arith, nat_Key, contains}
use chat.Database.{Database, ThreadId}
use chat.Server.Threads.{
  Job, idle, Task, free, Threads, all_at, Event, Interleaved, stay, ask, work, tell, leave, crash,
  Serial, stay_serial,
}
use chat.Server.Threads.Pending.{leave_out}
use chat.Server.Threads.Standing.{at_rest, idle-free}
use chat.Server.Threads.Alike.{Alike, Stands-job}
use chat.Server.Threads.Follows.{
  ask-Follows, work-Follows, tell-Follows, leave-Follows, crash_follows,
}

refines :
    {s' : Threads Job} {es : List Event} {s : Threads Job} (a : Threads Task)
    → Alike s a
    → Interleaved s' es s
    → (a' : Threads Task) × Serial a' es a × Alike s' a'
refines a l stay = (a, stay_serial, l)
refines a l (ask t q es s e rest) =
    let (a1, more, l1) = ask-Follows l t q es e in
    let (a', run, l') = refines a1 l1 rest in (a', more a' run, l')
refines a l (work t order p p' db es s walks e1 e2 rest) =
    let (a1, more, l1) = work-Follows l t order p p' db es walks e1 e2 in
    let (a', run, l') = refines a1 l1 rest in (a', more a' run, l')
refines a l (tell t r es s e rest) =
    let (a1, more, l1) = tell-Follows l t r es e in
    let (a', run, l') = refines a1 l1 rest in (a', more a' run, l')
refines a l (leave t es s e rest) =
    let (a1, more, l1) = leave-Follows l t es e in
    let (a', run, l') = refines a1 l1 rest in (a', more a' run, l')
refines a l (crash t order p h s walks e1 e2 same) =
    (a, crash_follows l t order p h walks e1 e2, subst (λ z. Alike z a) (sym same) l)

all-Alike : (db : Database) → Alike (all_at idle db) (all_at free db)
unfolding contains
all-Alike db = record { pending = []; same = refl; stands = λ u. at_rest }

leave_out-users :
    (us : List ThreadId) (db : Database)
    → ((leave_out us db).users_ ≡ db.users_)
      × ((leave_out us db).historical_users_ ≡ db.historical_users_)
leave_out-users [] db = (refl, refl)
leave_out-users (u ∷ us) db = leave_out-users us db

-- Given that the threads of the server all wait for requests, and run from then on with the methods
-- of their handlers in any order: what can be seen from outside can also be seen of a server that
-- serves each request at once, between the moments when it is read and answered; a halt is a halt
-- in serving a request; and the users, with their chats, and the names ever taken are at the end
-- the same.
pub interleaved-Serial :
    (db : Database) (es : List Event) (s' : Threads Job)
    → Interleaved s' es (all_at idle db)
    → (a' : Threads Task) × Serial a' es (all_at free db)
      × (s'.database_.users_ ≡ a'.database_.users_)
      × (s'.database_.historical_users_ ≡ a'.database_.historical_users_)
interleaved-Serial db es s' run =
    let (a', serial, l) = refines (all_at free db) (all-Alike db) run in
    let (e1, e2) = leave_out-users l.pending a'.database_ in
    (
      a',
      serial,
      ap (λ (d : Database). d.users_) l.same ∙ e1,
      ap (λ (d : Database). d.historical_users_) l.same ∙ e2,
    )

nobody_away : (us : List ThreadId) → ((u : ThreadId) → contains u us ≡ false) → us ≡ []
unfolding contains
nobody_away [] h = refl
nobody_away (v ∷ vs) h = absurd (ground (arith, h v))

-- Given that the threads of the server all wait for requests, run with the methods of their handlers
-- in any order, and all wait for requests again: a server that serves each request at once, between
-- the moments when it is read and answered, can show the same outside, with no request open at the
-- end, and with the same database, logins included.
pub interleaved_settled :
    (db : Database) (es : List Event) (s' : Threads Job)
    → Interleaved s' es (all_at idle db)
    → ((u : ThreadId) → s'.at u ≡ idle)
    → (a' : Threads Task) × Serial a' es (all_at free db)
      × ((u : ThreadId) → a'.at u ≡ free)
      × (s'.database_ ≡ a'.database_)
interleaved_settled db es s' run settled =
    let (a', serial, l) = refines (all_at free db) (all-Alike db) run in
    let none_away =
      nobody_away l.pending λ u. (idle-free (Stands-job (settled u) (l.stands u))).0 in
    (
      a',
      serial,
      (λ u. (idle-free (Stands-job (settled u) (l.stands u))).1),
      l.same ∙ ap (λ us. leave_out us a'.database_) none_away,
    )
