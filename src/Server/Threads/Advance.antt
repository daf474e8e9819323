-- ===== src/Server/Threads/Advance.antt =====
-- The steps of a handler of src/server/server.cc, and when its request counts as served.
use chat.Common.{
  ◌≡◌, refl, ap, ◌∙◌, Bool, true, false, if◌then◌else◌, List, Str, Outcome, done, fail, halt, Ends,
  Ends-done, Ends-bind, Halt, ◌>>=◌,
}
use chat.Protocol.Requests.{Request}
use chat.Protocol.Responses.{Response}
use chat.Database
use chat.Database.{Database, ThreadId}
use chat.Server.{username_refused, password_refused}
use chat.Server.Service.{respond, relogin}
use chat.Database.Methods.{Method, Reply, perform}
use chat.Server.Interleaving.{Program, said, program}
use chat.Server.Interleaving.Atomic.{go_on, Refuses}
use chat.Server.Interleaving.Serves.{
  logout-without, logout-Refuses, accounts-Refuses, send_txt-Refuses, recv_txt-Refuses,
  correspondents-Refuses, delete-Refuses,
}
use chat.Server.Threads.{advance, busy, Task, waiting, ready}
use chat.Server.Threads.Pending.{found}
use chat.Server.Threads.Standing.{
  log_in_after, Stands, to_register, to_check, checked, to_relogin, to_log_out, to_log_in, finished,
  Meanwhile, nothing, serves,
}

halts_alike {ℓ κ μ} :
    {A : Type ℓ} {B : Type κ} {C : Type μ} (o : Outcome A) (f : A → B) (g : A → C) (h : Halt)
    → (o >>= λ a. done (f a)) ≡ halt h
    → (o >>= λ a. done (g a)) ≡ halt h
halts_alike (done a) f g h e = absurd (cc)
halts_alike (fail s) f g h e = absurd (cc)
halts_alike (halt k) f g h e = cc

module _ (order : List Str → List Str) (t : ThreadId) where
  -- A step of the thread's handler, as the serial server sees it.
  abbrev pub Seen : Program → Database → Task → Database → Type 0
  Seen p d task a =
      (x : Bool) × (task' : Task) × (a' : Database) × Meanwhile order t task a task' a'
      × (d ≡ found x t a')
      × Stands t (Database.is_logged_in t a') x (busy p) task'

  served_now :
      (q : Request) (r : Response) (a d : Database)
      → respond order t q a ≡ done (r, d)
      → Seen (Program.answer r) d (waiting q) a
  served_now q r a d e = (false, ready r, d, serves q r d refl e, refl, finished r)

  check_passed :
      (q : Request) (refusal : Response) (m : Method) (f : Reply m → Response)
      → ((o : List Str → List Str) → Refuses o t q refusal m f)
      → (a : Database) (b : Bool) → Database.is_logged_in t a ≡ b
      → Seen (go_on refusal m f b) a (waiting q) a
  check_passed q refusal m f h a true e =
      (false, waiting q, a, nothing, refl, checked q refusal m f h e)
  check_passed q refusal m f h a false e = served_now q refusal a a (
      h order a
      ∙ ap (λ b. if b then perform order t m a >>= (λ r. done (f r.0, r.1)) else done (refusal, a))
          e)

  relogin_checked :
      (u p : Str) (a : Database) (b : Bool)
      → Database.is_logged_in t a ≡ b
      → Seen (log_in_after u p b) a (waiting (Request.login u p)) a
  relogin_checked u p a true e =
      (false, waiting (Request.login u p), a, nothing, refl, to_log_out u p e)
  relogin_checked u p a false e =
      (false, waiting (Request.login u p), a, nothing, refl, to_log_in false u p e)

  relogin-found :
      (a : Database) (x : Bool) → Database.is_logged_in t a ≡ x → relogin order t a ≡ found x t a
  relogin-found a true e = rw e (logout-without t a e)
  relogin-found a false e = rw e refl

  -- Every step of a handler is seen as no step, or as the one that serves its request.
  pub advance-Seen :
      (x : Bool) (p : Program) (task : Task) (a : Database)
      → Stands t (Database.is_logged_in t a) x (busy p) task
      → Ends (λ (r : Program × Database). Seen r.0 r.1 task a) (advance order t p (found x t a))
  unfolding advance perform respond
  advance-Seen x p task a (to_register u w h1 h2) =
      Ends-done _ (served_now (Request.registration u w) _ a _ (rw (h1, h2) refl))
  advance-Seen x p task a (to_check q refusal m f h) =
      Ends-done _ (check_passed q refusal m f h a _ refl)
  advance-Seen x p task a (checked q refusal m f h here) =
      Ends-bind {Q = λ r. perform order t m a ≡ done r} (perform order t m a) _
        (record { at = λ r e. e })
        λ r e. Ends-done _ (
          served_now q (f r.0) a r.1 (
            h order a
            ∙ ap
                (λ b.
                  if b then perform order t m a >>= (λ r. done (f r.0, r.1)) else done (refusal, a))
                here
            ∙ ap (λ o. o >>= λ r. done (f r.0, r.1)) e))
  advance-Seen x p task a (to_relogin u w) = Ends-done _ (relogin_checked u w a _ refl)
  advance-Seen x p task a (to_log_out u w here) =
      Ends-done _ (true, task, a, nothing, logout-without t a here, to_log_in true u w here)
  advance-Seen x p task a (to_log_in x' u w same) = Ends-done _ (
      served_now (Request.login u w) _ a _
        (ap (λ d. let r = Database.login t u w d in done (said r.0, r.1)) (relogin-found a x same)))
  advance-Seen x p task a (finished r) = Ends-done _ (false, task, a, nothing, refl, finished r)

  -- A step in which the server halts: serving the request would have halted it.
  pub advance_halts :
      (x : Bool) (p : Program) (task : Task) (a : Database) (h : Halt)
      → Stands t (Database.is_logged_in t a) x (busy p) task
      → advance order t p (found x t a) ≡ halt h
      → (q : Request) × (task ≡ waiting q) × (respond order t q a ≡ halt h)
  unfolding advance perform
  advance_halts x p task a g (to_register u w h1 h2) e = absurd (cc)
  advance_halts x p task a g (to_check q refusal m f h) e = absurd (cc)
  advance_halts x p task a g (checked q refusal m f h here) e = (
    q,
    refl,
    h order a
        ∙ ap
            (λ b. if b then perform order t m a >>= (λ r. done (f r.0, r.1)) else done (refusal, a))
            here
        ∙ halts_alike (perform order t m a) _ _ g e,
  )
  advance_halts x p task a g (to_relogin u w) e = absurd (cc)
  advance_halts x p task a g (to_log_out u w here) e = absurd (cc)
  advance_halts x p task a g (to_log_in x' u w same) e = absurd (cc)
  advance_halts x p task a g (finished r) e = absurd (cc)

  refused_or_asked :
      (q : Request) (b : Bool) (r : Response) (p : Program) (a : Database)
      → (b ≡ true → respond order t q a ≡ done (r, a))
      → (b ≡ false → Seen p a (waiting q) a)
      → Seen (if b then Program.answer r else p) a (waiting q) a
  refused_or_asked q true r p a h k = served_now q r a a (h refl)
  refused_or_asked q false r p a h k = k refl

  -- A handler that starts.
  pub program-Seen : (q : Request) (a : Database) → Seen (program q) a (waiting q) a
  unfolding program respond
  program-Seen (Request.registration u w) a =
      refused_or_asked (Request.registration u w) (username_refused u) _ _ a (λ e. rw e refl)
        λ h1.
          refused_or_asked (Request.registration u w) (password_refused w) _ _ a
            (λ e. rw (h1, e) refl)
            λ h2.
              (false, waiting (Request.registration u w), a, nothing, refl, to_register u w h1 h2)
  program-Seen (Request.login u w) a =
      (false, waiting (Request.login u w), a, nothing, refl, to_relogin u w)
  program-Seen Request.logout a =
      (false, _, a, nothing, refl, to_check _ _ _ _ λ o. logout-Refuses o t)
  program-Seen (Request.accounts w) a =
      (false, _, a, nothing, refl, to_check _ _ _ _ λ o. accounts-Refuses o t w)
  program-Seen (Request.send_txt r txt) a =
      (false, _, a, nothing, refl, to_check _ _ _ _ λ o. send_txt-Refuses o t r txt)
  program-Seen (Request.recv_txt u) a =
      (false, _, a, nothing, refl, to_check _ _ _ _ λ o. recv_txt-Refuses o t u)
  program-Seen Request.correspondents a =
      (false, _, a, nothing, refl, to_check _ _ _ _ λ o. correspondents-Refuses o t)
  program-Seen Request.delete a =
      (false, _, a, nothing, refl, to_check _ _ _ _ λ o. delete-Refuses o t)
