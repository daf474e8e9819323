-- ===== src/Server/Threads/NoCrash.antt =====
-- The threads of src/server/server.cc run on as long as no account is deleted.
use chat.Common.{subst, List, All, nat_eq, nat_Key, str_Key, if_cases}
use chat.Database.{Database, ThreadId, logout}
use chat.Database.Invariant.{WellFormed}
use chat.Database.Steps.{Reach-WellFormed, here, next, logout_step}
use chat.Server.Faults.{Attended}
use chat.Server.Interleaving.{program}
use chat.Server.Threads.{
  Job, idle, busy, Threads, put, all_at, Event, asked, crashed, Interleaved, stay, ask, work, tell,
  leave, crash,
}
use chat.Server.Threads.Invariant.{advance-Reach}
use chat.Server.Threads.Calm.{
  KeepsUsers, IsNotDelete, program-KeepsUsers, logout-Attended, advance-Attended, advance-ne-halt,
}

-- No thread is about to delete a user.
abbrev CalmJob : Job → Type 0
CalmJob idle = Unit {0}
CalmJob (busy p) = KeepsUsers p

record Calm (s : Threads Job) : Type 0 where
  wf : WellFormed s.database_
  attended : Attended s.database_
  jobs : (u : ThreadId) → CalmJob (s.at u)

put-Calm :
    {s : Threads Job} (c : Calm s) (t : ThreadId) (j : Job) (db : Database)
    → WellFormed db
    → Attended db
    → CalmJob j
    → Calm (put t j db s)
put-Calm {s} c t j db w a h = record {
  wf = w;
  attended = a;
  jobs = λ u. if_cases CalmJob (nat_eq t u) j (s.at u) (λ e. h) (λ e. c.jobs u);
}

-- What may happen, and what then does not.
abbrev pub AsksNoDelete : Event → Type 0
AsksNoDelete (asked t q) = IsNotDelete q
AsksNoDelete e = Unit {0}

abbrev pub IsNoCrash : Event → Type 0
IsNoCrash (crashed h) = ⊥
IsNoCrash e = Unit {0}

run-IsNoCrash :
    {s' : Threads Job} {es : List Event} {s : Threads Job}
    → Calm s
    → Interleaved s' es s
    → All AsksNoDelete es
    → All IsNoCrash es
run-IsNoCrash c stay h = tt
run-IsNoCrash c (ask t q es s e rest) (k, h) = (
  tt,
  run-IsNoCrash
      (put-Calm c t (busy (program q)) s.database_ c.wf c.attended (program-KeepsUsers q k)) rest h,
)
run-IsNoCrash c (work t order p p' db es s walks e1 e2 rest) h =
    let keeps = subst CalmJob e1 (c.jobs t) in
    let next_calm = (advance-Attended order t s.database_ c.attended p c.wf keeps).at (p', db) e2 in
    let wf = Reach-WellFormed c.wf ((advance-Reach order walks t s.database_ p).at (p', db) e2) in
    run-IsNoCrash (put-Calm c t (busy p') db wf next_calm.1 next_calm.0) rest h
run-IsNoCrash c (tell t r es s e rest) (k, h) =
    (tt, run-IsNoCrash (put-Calm c t idle s.database_ c.wf c.attended tt) rest h)
run-IsNoCrash c (leave t es s e rest) (k, h) =
    let wf = Reach-WellFormed c.wf (next here (logout_step t)) in
    (
      tt,
      run-IsNoCrash
          (put-Calm c t idle (logout t s.database_).1 wf
            (logout-Attended (λ xs. xs) t s.database_ c.attended) tt)
          rest h,
    )
run-IsNoCrash c (crash t order p g s walks e1 e2 same) h =
    absurd (advance-ne-halt order t s.database_ c.attended p g (subst CalmJob e1 (c.jobs t)) e2)

-- Given a well-formed database in which every thread acts for a user who exists, with all threads
-- waiting for requests: as long as no thread reads a request to delete an account, no method of any
-- handler halts the server, in whatever order they follow one another.
pub interleaved-IsNoCrash :
    (db : Database) (es : List Event) (s' : Threads Job)
    → WellFormed db
    → Attended db
    → All AsksNoDelete es
    → Interleaved s' es (all_at idle db)
    → All IsNoCrash es
interleaved-IsNoCrash db es s' w a h run =
    run-IsNoCrash (record { wf = w; attended = a; jobs = λ u. tt }) run h
