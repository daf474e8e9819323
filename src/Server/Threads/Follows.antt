-- ===== src/Server/Threads/Follows.antt =====
-- A step of one thread of src/server/server.cc, and the steps of the serial server that follow it.
use chat.Common.{
  halted_alike, bind_done, ◌≡◌, refl, sym, ap, subst, ◌∙◌, false, if◌then◌else◌, List, [], ◌∷◌, Str,
  eq→nat_eq, nat_Key, contains, done, halt, Halt, done_inj,
}
use chat.Protocol.Requests.{Request}
use chat.Protocol.Responses.{Response}
use chat.Database
use chat.Database.{Database, ThreadId}
use chat.Database.Deletion.{WalksKeys}
use chat.Database.Methods.{Method, perform}
use chat.Server.Interleaving.{Program, program}
use chat.Server.Interleaving.Commute.{perform-Spares}
use chat.Server.Threads.{
  advance, Job, idle, busy, Task, free, waiting, Threads, put, Event, asked, told, left, crashed,
  Serial, ask_serial, tell_serial, leave_serial, crash_serial,
}
use chat.Server.Threads.Pending.{
  leave_out, remove, found, leave_out-remove, contains-remove, perform-leave_out, advance-leave_out,
  advance-Spares,
}
use chat.Server.Threads.Standing.{at_rest, answer-ready, idle-free}
use chat.Server.Threads.Advance.{advance-Seen, advance_halts, program-Seen}
use chat.Server.Threads.Alike.{
  Alike, Stands-job, Stands-task, put_here, put_there, lookup-found, moved, step-Alike,
}

module _ {s : Threads Job} {a : Threads Task} (l : Alike s a) (t : ThreadId) where
  abbrev pub Follows : Threads Job → List Event → List Event → Type 0
  Follows s1 es1 es =
      (a1 : Threads Task) × ((s' : Threads Task) → Serial s' es1 a1 → Serial s' es a) × Alike s1 a1

  abbrev rest : List ThreadId
  rest = remove t l.pending

  -- What a thread finds if it is not logged out for the time being.
  finds : contains t l.pending ≡ false → s.database_ ≡ leave_out rest a.database_
  finds h =
      l.same
      ∙ leave_out-remove t l.pending a.database_
      ∙ ap (λ x. leave_out rest (found x t a.database_)) h

  rest-contains : contains t rest ≡ false
  rest-contains =
      contains-remove t t l.pending
      ∙ ap (λ b. if b then false else contains t l.pending) (eq→nat_eq t t refl)

  pub ask-Follows :
      (q : Request) (es : List Event)
      → s.at t ≡ idle
      → Follows (put t (busy (program q)) s.database_ s) es (asked t q ∷ es)
  ask-Follows q es e =
      let (h, free1) = idle-free (Stands-job e (l.stands t)) in
      let a1 = put t (waiting q) a.database_ a in
      let (a2, more, alike) =
        step-Alike t l.pending s a1
          (λ u n. Stands-task (sym (put_there t a (waiting q) a.database_ u n)) (l.stands u))
          (λ xs. xs) (program q) a.database_ (waiting q) (λ ks k. refl)
          (put_here t a (waiting q) a.database_) (program-Seen (λ xs. xs) t q a.database_)
          (λ u n. refl) in
      (
        a2,
        (λ s' r. ask_serial t q es a free1 (more s' es r)),
        subst (λ db. Alike (put t (busy (program q)) db s) a2) (sym (finds h)) alike,
      )

  pub work-Follows :
      (order : List Str → List Str) (p p' : Program) (db : Database) (es : List Event)
      → WalksKeys order
      → s.at t ≡ busy p
      → advance order t p s.database_ ≡ done (p', db)
      → Follows (put t (busy p') db s) es es
  work-Follows order p p' db es walks e1 e2 =
      let x = contains t l.pending in
      let st = Stands-job e1 (l.stands t) in
      let (r, e3, e4) = bind_done (advance order t p (found x t a.database_)) _ _ (
        sym (advance-leave_out order t p rest (found x t a.database_) rest-contains)
        ∙ ap (advance order t p) (sym (l.same ∙ leave_out-remove t l.pending a.database_))
        ∙ e2) in
      let (a1, more, alike) =
        step-Alike t l.pending s a (λ u n. l.stands u) order r.0 r.1 (a.at t) walks refl
          ((advance-Seen order t x p (a.at t) a.database_ st).at r e3)
          (λ u n.
            (advance-Spares order t u p (found x t a.database_) n).at r e3
            ∙ lookup-found x t u a.database_ n) in
      (
        a1,
        (λ s' r. more s' es r),
        subst (λ (z : Program × Database). Alike (put t (busy z.0) z.1 s) a1) (done_inj e4) alike,
      )

  pub tell-Follows :
      (r : Response) (es : List Event)
      → s.at t ≡ busy (Program.answer r)
      → Follows (put t idle s.database_ s) es (told t r ∷ es)
  tell-Follows r es e =
      let (h, ready1) = answer-ready (Stands-job e (l.stands t)) in
      let a1 = put t free a.database_ a in
      (
        a1,
        (λ s' k. tell_serial t r es a ready1 k),
        subst (λ db. Alike (put t idle db s) a1) (sym (finds h))
            (moved t l.pending s a (λ u n. l.stands u) false idle a.database_ a1 refl
              (Stands-task (sym (put_here t a free a.database_)) at_rest)
              (λ u n. put_there t a free a.database_ u n) (λ u n. refl)),
      )

  logged_out :
      contains t l.pending ≡ false
      → leave_out rest (Database.logout t a.database_).1 ≡ (Database.logout t s.database_).1
  unfolding perform
  logged_out h = sym (
      ap (λ z. (Database.logout t z).1) (finds h)
      ∙ ap (λ x. x.1)
          (done_inj (perform-leave_out (λ xs. xs) t Method.logout rest a.database_ rest-contains)))

  pub leave-Follows :
      (es : List Event)
      → s.at t ≡ idle
      → Follows (put t idle (Database.logout t s.database_).1 s) es (left t ∷ es)
  unfolding perform
  leave-Follows es e =
      let (h, free1) = idle-free (Stands-job e (l.stands t)) in
      let db1 = (Database.logout t a.database_).1 in
      let a1 = put t free db1 a in
      (
        a1,
        (λ s' k. leave_serial t es a free1 k),
        subst (λ db. Alike (put t idle db s) a1) (logged_out h)
            (moved t l.pending s a (λ u n. l.stands u) false idle db1 a1 refl
              (Stands-task (sym (put_here t a free db1)) at_rest)
              (λ u n. put_there t a free db1 u n)
              (λ u n. (perform-Spares (λ xs. xs) u t n a.database_ Method.logout).at _ refl)),
      )

  pub crash_follows :
      (order : List Str → List Str) (p : Program) (h : Halt)
      → WalksKeys order
      → s.at t ≡ busy p
      → advance order t p s.database_ ≡ halt h
      → Serial a (crashed h ∷ []) a
  crash_follows order p h walks e1 e2 =
      let x = contains t l.pending in
      let st = Stands-job e1 (l.stands t) in
      let (q, waits, e3) = advance_halts order t x p (a.at t) a.database_ h st (
        halted_alike (advance order t p (found x t a.database_)) _ h (
          sym (advance-leave_out order t p rest (found x t a.database_) rest-contains)
          ∙ ap (advance order t p) (sym (l.same ∙ leave_out-remove t l.pending a.database_))
          ∙ e2)) in
      crash_serial t order q h a walks waits e3 refl
