-- ===== src/Server/Threads/Alike.antt =====
-- The threads of src/server/server.cc and the serial server side by side, after a step of one thread.
use chat.Common.{
  ◌≡◌, ◌≢◌, refl, sym, ap, subst, ◌∙◌, Bool, true, false, if◌then◌else◌, List, ◌∷◌, Str, arith,
  nat_eq, nat_eq_iff, eq→nat_eq, ne→nat_eq, nat_Key, is_some, lookup, contains, lookup-erase,
  Bool-cases, inl, inr,
}
use chat.Database
use chat.Database.{Database, ThreadId}
use chat.Database.Deletion.{WalksKeys}
use chat.Server.Interleaving.{Program}
use chat.Server.Threads.{Job, busy, Task, ready, Threads, put, Event, Serial, serve_serial}
use chat.Server.Threads.Pending.{leave_out, remove, found, leave_out-without, contains-remove}
use chat.Server.Threads.Standing.{Stands, nothing, serves}
use chat.Server.Threads.Advance.{Seen}

-- The threads and the serial server agree: but for the logins of the threads that are logged out
-- for the time being, the databases are the same.
pub record Alike (s : Threads Job) (a : Threads Task) : Type 0 where
  pub pending : List ThreadId
  pub same : s.database_ ≡ leave_out pending a.database_
  pub stands :
      (u : ThreadId)
      → Stands u (Database.is_logged_in u a.database_) (contains u pending) (s.at u) (a.at u)

pub Stands-job :
    {u : ThreadId} {b x : Bool} {j j' : Job} {k : Task}
    → j ≡ j'
    → Stands u b x j k
    → Stands u b x j' k
Stands-job {u} {b} {x} {k = k} e h = subst (λ j. Stands u b x j k) e h

pub Stands-task :
    {u : ThreadId} {b x : Bool} {j : Job} {k k' : Task}
    → k ≡ k'
    → Stands u b x j k
    → Stands u b x j k'
Stands-task {u} {b} {x} {j} e h = subst (λ k. Stands u b x j k) e h

Stands-same :
    (u : ThreadId) (b b' x x' : Bool) (j j' : Job) (k k' : Task)
    → b ≡ b'
    → x ≡ x'
    → j ≡ j'
    → k ≡ k'
    → Stands u b x j k
    → Stands u b' x' j' k'
Stands-same u b b' x x' j j' k k' eb ex ej ek h =
    subst (λ b. Stands u b x' j' k') eb
      (subst (λ x. Stands u b x j' k') ex (Stands-job ej (Stands-task ek h)))

abbrev away : Bool → ThreadId → List ThreadId → List ThreadId
away x t us = if x then t ∷ us else us

leave_out-found :
    (x : Bool) (t : ThreadId) (us : List ThreadId) (db : Database)
    → leave_out us (found x t db) ≡ leave_out (away x t us) db
leave_out-found true t us db = leave_out-without t us db
leave_out-found false t us db = refl

pub lookup-found :
    (x : Bool) (t u : ThreadId) (db : Database)
    → t ≢ u
    → lookup u (found x t db).threads_ ≡ lookup u db.threads_
lookup-found true t u db n = ground (arith, lookup-erase t u db.threads_)
lookup-found false t u db n = refl

contains-away :
    (x : Bool) (t u : ThreadId) (us : List ThreadId)
    → contains u (away x t (remove t us)) ≡ (if nat_eq t u then x else contains u us)
unfolding contains
contains-away true t u us = ground (arith, contains-remove t u us)
contains-away false t u us = ground (arith, contains-remove t u us)

module _ (t : ThreadId) where
  pub put_here : {J : Type 0} (s : Threads J) (j : J) (db : Database) → (put t j db s).at t ≡ j
  put_here s j db = rw (eq→nat_eq t t refl) refl

  pub put_there :
      {J : Type 0} (s : Threads J) (j : J) (db : Database) (u : ThreadId)
      → t ≢ u
      → (put t j db s).at u ≡ s.at u
  put_there s j db u n = rw (ne→nat_eq t u n) refl

module _ (t : ThreadId) (us : List ThreadId) where
  away_here : (x : Bool) → contains t (away x t (remove t us)) ≡ x
  away_here x =
      contains-away x t t us ∙ ap (λ b. if b then x else contains t us) (eq→nat_eq t t refl)

  away_there :
      (x : Bool) (u : ThreadId) → t ≢ u → contains u (away x t (remove t us)) ≡ contains u us
  away_there x u n =
      contains-away x t u us ∙ ap (λ b. if b then x else contains u us) (ne→nat_eq t u n)

module _ (t : ThreadId) (us : List ThreadId) (s : Threads Job) (a : Threads Task)
    (others : (u : ThreadId)
      → t ≢ u
      → Stands u (Database.is_logged_in u a.database_) (contains u us) (s.at u) (a.at u)) where
  -- One thread has moved, and the others stand where they were.
  pub moved :
      (x : Bool) (j : Job) (d : Database) (a' : Threads Task)
      → d ≡ found x t a'.database_
      → Stands t (Database.is_logged_in t a'.database_) x j (a'.at t)
      → ((u : ThreadId) → t ≢ u → a'.at u ≡ a.at u)
      → ((u : ThreadId) → t ≢ u → lookup u d.threads_ ≡ lookup u a.database_.threads_)
      → Alike (put t j (leave_out (remove t us) d) s) a'
  unfolding Database.is_logged_in
  moved x j d a' e st tasks logins = record {
    pending = away x t (remove t us);
    same = ap (leave_out (remove t us)) e ∙ leave_out-found x t (remove t us) a'.database_;
    stands = λ u. elim (Bool-cases (nat_eq t u)) [
      | inl same ↦
          subst
            (λ v.
              Stands v (Database.is_logged_in v a'.database_) (contains v (away x t (remove t us)))
                ((put t j (leave_out (remove t us) d) s).at v) (a'.at v))
            ((nat_eq_iff t u).0 same)
            (Stands-same t _ _ _ _ _ _ _ _ refl (sym (away_here t us x))
              (sym (put_here t s j (leave_out (remove t us) d))) refl st)
      | inr other ↦
          let n : t ≢ u = ground (arith, nat_eq_iff t u) in
          Stands-same u _ _ _ _ _ _ _ _
            (ap is_some (
              sym (logins u n)
              ∙ ap (λ (z : Database). lookup u z.threads_) e
              ∙ lookup-found x t u a'.database_ n))
            (sym (away_there t us x u n)) (sym (put_there t s j (leave_out (remove t us) d) u n))
            (sym (tasks u n)) (others u n)
    ];
  }

  -- A step of one thread, and what the serial server does meanwhile.
  pub step-Alike :
      (order : List Str → List Str) (p : Program) (d : Database) (task : Task)
      → WalksKeys order
      → a.at t ≡ task
      → Seen order t p d task a.database_
      → ((u : ThreadId) → t ≢ u → lookup u d.threads_ ≡ lookup u a.database_.threads_)
      → (a' : Threads Task) × ((s' : Threads Task) (es : List Event)
          → Serial s' es a'
          → Serial s' es a)
        × Alike (put t (busy p) (leave_out (remove t us) d) s) a'
  step-Alike order p d task walks e (x, task', db', nothing, same, st) logins =
      (a, (λ s' es r. r), moved x (busy p) d a same (Stands-task (sym e) st) (λ u n. refl) logins)
  step-Alike order p d task walks e (x, task', db', serves q r a1 e1 e2, same, st) logins =
      let a' = put t (ready r) db' a in
      (
        a',
        (λ s' es rest. serve_serial t order q r db' es a walks (e ∙ e1) e2 rest),
        moved x (busy p) d a' same (Stands-task (sym (put_here t a (ready r) db')) st)
            (λ u n. put_there t a (ready r) db' u n) logins,
      )
