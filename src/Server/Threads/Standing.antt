-- ===== src/Server/Threads/Standing.antt =====
-- A thread within a handler of src/server/server.cc, and how far its request is served.
use chat.Common.{◌≡◌, refl, Bool, true, false, if◌then◌else◌, List, Str, done}
use chat.Protocol.Requests.{Request}
use chat.Protocol.Responses.{Response}
use chat.Database.{Database, ThreadId}
use chat.Server.{username_refused, password_refused}
use chat.Server.Service.{respond}
use chat.Database.Methods.{Method, Reply}
use chat.Server.Interleaving.{Program, log_in, registered}
use chat.Server.Interleaving.Atomic.{go_on, Refuses}
use chat.Server.Threads.{Job, idle, busy, Task, free, waiting, ready}

abbrev pub log_in_after : Str → Str → Bool → Program
log_in_after u p b = if b then Program.call Method.logout (λ s. log_in u p) else log_in u p

-- Where thread `t` can be; `b` is whether it is logged in as its clients see it, and the index
-- before the job whether it is logged out only for the time being.
pub data Stands (t : ThreadId) (b : Bool) : Bool → Job → Task → Type 0 where
  at_rest : Stands t b false idle free
  to_register :
      (u p : Str)
      → username_refused u ≡ false
      → password_refused p ≡ false
      → Stands t b false
          (busy (Program.call (Method.registration u p) λ s. Program.answer (registered s)))
          (waiting (Request.registration u p))
  to_check :
      (q : Request) (refusal : Response) (m : Method) (f : Reply m → Response)
      → ((order : List Str → List Str) → Refuses order t q refusal m f)
      → Stands t b false (busy (Program.call Method.is_logged_in (go_on refusal m f))) (waiting q)
  checked :
      (q : Request) (refusal : Response) (m : Method) (f : Reply m → Response)
      → ((order : List Str → List Str) → Refuses order t q refusal m f)
      → b ≡ true
      → Stands t b false (busy (Program.call m λ r. Program.answer (f r))) (waiting q)
  to_relogin :
      (u p : Str)
      → Stands t b false
          (busy (Program.call Method.is_logged_in (log_in_after u p)))
          (waiting (Request.login u p))
  to_log_out :
      (u p : Str)
      → b ≡ true
      → Stands t b false
          (busy (Program.call Method.logout λ s. log_in u p))
          (waiting (Request.login u p))
  to_log_in :
      (x : Bool) (u p : Str)
      → b ≡ x
      → Stands t b x (busy (log_in u p)) (waiting (Request.login u p))
  finished : (r : Response) → Stands t b false (busy (Program.answer r)) (ready r)

-- A handler that has its response has served its request.
pub answer-ready :
    {t : ThreadId} {b x : Bool} {r : Response} {task : Task}
    → Stands t b x (busy (Program.answer r)) task
    → (x ≡ false) × (task ≡ ready r)
answer-ready (finished r) = (refl, refl)

pub idle-free :
    {t : ThreadId} {b x : Bool} {task : Task} → Stands t b x idle task → (x ≡ false) × (task ≡ free)
idle-free at_rest = (refl, refl)

-- What the serial server does meanwhile: nothing, or it serves the request.
pub data Meanwhile (order : List Str → List Str) (t : ThreadId) (task : Task) (a : Database)
    : Task → Database → Type 0 where
  nothing : Meanwhile order t task a task a
  serves :
      (q : Request) (r : Response) (a' : Database)
      → task ≡ waiting q
      → respond order t q a ≡ done (r, a')
      → Meanwhile order t task a (ready r) a'
