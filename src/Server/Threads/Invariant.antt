-- ===== src/Server/Threads/Invariant.antt =====
-- What the threads of src/server/server.cc keep of the database, however their handlers are mixed.
use chat.Common.{sym, subst, List, Str, str_Key, Ends, Ends-done, Ends-bind}
use chat.Database.{Database, ThreadId}
use chat.Database.Invariant.{WellFormed}
use chat.Database.Deletion.{WalksKeys}
use chat.Database.Steps.{Reach, here, next, logout_step, Reach-WellFormed}
use chat.Database.Methods.{perform-Reach}
use chat.Server.Interleaving.{Program}
use chat.Server.Threads.{
  advance, Job, Threads, Event, Interleaved, stay, ask, work, tell, leave, crash,
}

Reach-append : {db1 db2 db3 : Database} → Reach db1 db2 → Reach db2 db3 → Reach db1 db3
Reach-append r here = r
Reach-append r (next r' s) = next (Reach-append r r') s

module _ (order : List Str → List Str) (walks : WalksKeys order) (t : ThreadId)
    (db : Database) where
  pub advance-Reach :
      (p : Program) → Ends (λ (r : Program × Database). Reach db r.1) (advance order t p db)
  unfolding advance
  advance-Reach (Program.answer r) = Ends-done _ here
  advance-Reach (Program.call m k) =
      Ends-bind _ _ (perform-Reach order walks t db m) λ r q. Ends-done _ q

Interleaved-Reach :
    {s' : Threads Job} {es : List Event} {s : Threads Job}
    → Interleaved s' es s
    → Reach s.database_ s'.database_
Interleaved-Reach stay = here
Interleaved-Reach (ask t q es s e rest) = Interleaved-Reach rest
Interleaved-Reach (work t order p p' db es s walks e1 e2 rest) =
    Reach-append ((advance-Reach order walks t s.database_ p).at _ e2) (Interleaved-Reach rest)
Interleaved-Reach (tell t r es s e rest) = Interleaved-Reach rest
Interleaved-Reach (leave t es s e rest) =
    Reach-append (next here (logout_step t)) (Interleaved-Reach rest)
Interleaved-Reach (crash t order p h s walks e1 e2 same) =
    subst (λ (z : Threads Job). Reach s.database_ z.database_) (sym same) here

-- However the methods of the handlers follow one another: a well-formed database stays well formed,
-- that is, users stand under their names, and the two sides of every chat tell the same texts in
-- the same order.
pub Interleaved-WellFormed :
    (s' : Threads Job) (es : List Event) (s : Threads Job)
    → Interleaved s' es s
    → WellFormed s.database_
    → WellFormed s'.database_
Interleaved-WellFormed s' es s run w = Reach-WellFormed w (Interleaved-Reach run)
