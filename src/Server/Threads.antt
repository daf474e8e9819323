-- ===== src/Server/Threads.antt =====
-- src/server/server.cc: all threads of the server together, each with its own connection, over one
-- database; and the server that its clients are promised, which serves every request at once.
-- Messages that are no requests call no method of the database, and are left out.
pub mod Pending
pub mod Standing
pub mod Advance
pub mod Alike
pub mod Follows
pub mod Invariant
pub mod Calm
pub mod NoCrash
pub mod Refinement
use chat.Common.{
  ◌≡◌, Bool, List, [], ◌∷◌, Str, nat_eq, if◌then◌else◌, Outcome, done, halt, Halt, ◌>>=◌,
}
use chat.Protocol.Requests.{Request}
use chat.Protocol.Responses.{Response}
use chat.Database
use chat.Database.{Database, ThreadId}
use chat.Database.Deletion.{WalksKeys}
use chat.Server.Service.{respond}
use chat.Database.Methods.{perform}
use chat.Server.Interleaving.{Program, program}

-- A handler's next call of a method, and what it has left to do.
unfoldable pub advance :
    (List Str → List Str) → ThreadId → Program → Database → Outcome (Program × Database)
advance order t (Program.answer r) db = done (Program.answer r, db)
advance order t (Program.call m k) db = do r ← perform order t m db; done (k r.0, r.1)

-- What a thread is at: it waits for a request, or runs a handler.
pub data Job : Type 0 where
  idle : Job
  busy : Program → Job

-- The same in front of the client: no request is open, one is not served yet, or its response is
-- not given yet.
pub data Task : Type 0 where
  free : Task
  waiting : Request → Task
  ready : Response → Task

-- The database, and what each thread is at.
pub record Threads (J : Type 0) : Type 0 where
  pub database_ : Database
  pub at : ThreadId → J

abbrev pub put : {J : Type 0} → ThreadId → J → Database → Threads J → Threads J
put t j db s = record { database_ = db; at = λ u. if nat_eq t u then j else s.at u }

abbrev pub all_at : {J : Type 0} → J → Database → Threads J
all_at j db = record { database_ = db; at = λ u. j }

-- What can be seen from outside: a request is read, a response is given to `send_msg`, a connection
-- ends, or the process does.
pub data Event : Type 0 where
  asked : ThreadId → Request → Event
  told : ThreadId → Response → Event
  left : ThreadId → Event
  crashed : Halt → Event

-- The runs of the threads. The methods of their handlers follow one another in any order.
pub data Interleaved (s' : Threads Job) : List Event → Threads Job → Type 0 where
  stay : Interleaved s' [] s'
  ask :
      (t : ThreadId) (q : Request) (es : List Event) (s : Threads Job)
      → s.at t ≡ idle
      → Interleaved s' es (put t (busy (program q)) s.database_ s)
      → Interleaved s' (asked t q ∷ es) s
  work :
      (t : ThreadId) (order : List Str → List Str) (p p' : Program) (db : Database)
      (es : List Event) (s : Threads Job)
      → WalksKeys order
      → s.at t ≡ busy p
      → advance order t p s.database_ ≡ done (p', db)
      → Interleaved s' es (put t (busy p') db s)
      → Interleaved s' es s
  tell :
      (t : ThreadId) (r : Response) (es : List Event) (s : Threads Job)
      → s.at t ≡ busy (Program.answer r)
      → Interleaved s' es (put t idle s.database_ s)
      → Interleaved s' (told t r ∷ es) s
  leave :
      (t : ThreadId) (es : List Event) (s : Threads Job)
      → s.at t ≡ idle
      → Interleaved s' es (put t idle (Database.logout t s.database_).1 s)
      → Interleaved s' (left t ∷ es) s
  crash :
      (t : ThreadId) (order : List Str → List Str) (p : Program) (h : Halt) (s : Threads Job)
      → WalksKeys order
      → s.at t ≡ busy p
      → advance order t p s.database_ ≡ halt h
      → s' ≡ s
      → Interleaved s' (crashed h ∷ []) s

-- The runs of a server that serves each request at once, between the moment when it is read and the
-- moment when the response is given.
pub data Serial (s' : Threads Task) : List Event → Threads Task → Type 0 where
  stay_serial : Serial s' [] s'
  ask_serial :
      (t : ThreadId) (q : Request) (es : List Event) (s : Threads Task)
      → s.at t ≡ free
      → Serial s' es (put t (waiting q) s.database_ s)
      → Serial s' (asked t q ∷ es) s
  serve_serial :
      (t : ThreadId) (order : List Str → List Str) (q : Request) (r : Response) (db : Database)
      (es : List Event) (s : Threads Task)
      → WalksKeys order
      → s.at t ≡ waiting q
      → respond order t q s.database_ ≡ done (r, db)
      → Serial s' es (put t (ready r) db s)
      → Serial s' es s
  tell_serial :
      (t : ThreadId) (r : Response) (es : List Event) (s : Threads Task)
      → s.at t ≡ ready r
      → Serial s' es (put t free s.database_ s)
      → Serial s' (told t r ∷ es) s
  leave_serial :
      (t : ThreadId) (es : List Event) (s : Threads Task)
      → s.at t ≡ free
      → Serial s' es (put t free (Database.logout t s.database_).1 s)
      → Serial s' (left t ∷ es) s
  crash_serial :
      (t : ThreadId) (order : List Str → List Str) (q : Request) (h : Halt) (s : Threads Task)
      → WalksKeys order
      → s.at t ≡ waiting q
      → respond order t q s.database_ ≡ halt h
      → s' ≡ s
      → Serial s' (crashed h ∷ []) s
