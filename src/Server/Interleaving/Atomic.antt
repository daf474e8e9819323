-- ===== src/Server/Interleaving/Atomic.antt =====
-- A handler among the methods of other threads is as good as one that runs at once.
use chat.Common.{
  ◌≡◌, refl, sym, ap, subst, ◌∙◌, Bool, true, false, if◌then◌else◌, List, Str, lookup, is_some,
  nat_Key, inl, inr, ◌⊎◌, Outcome, done, halt, Halt, ◌>>=◌, done_inj,
}
use chat.Protocol.Requests.{Request}
use chat.Protocol.Responses.{Response}
use chat.Database
use chat.Database.{Database, ThreadId}
use chat.Server.Service.{respond}
use chat.Database.Methods.{Method, Reply, perform}
use chat.Server.Interleaving.{
  Program, Others, no_more, one_more, Runs, answered, called, stopped, meanwhile,
}
use chat.Server.Interleaving.Other.{Others-lookup, Others-append}

-- A handler behind its test whether the thread is logged in.
abbrev pub go_on : Response → (m : Method) → (Reply m → Response) → Bool → Program
go_on refusal m f b =
    if b then Program.call m (λ r. Program.answer (f r)) else Program.answer refusal

module _ (order : List Str → List Str) (t : ThreadId) where
  -- The request is served at once, at some moment among the methods of the other threads; or the
  -- server halts while it is.
  pub data AtOnce (q : Request) (o : Outcome (Response × Database)) (db : Database) : Type 0 where
    served :
        (db1 db2 db3 : Database) (r : Response)
        → Others t db1 db
        → respond order t q db1 ≡ done (r, db2)
        → Others t db3 db2
        → o ≡ done (r, db3)
        → AtOnce q o db
    halted :
        (db1 : Database) (h : Halt)
        → Others t db1 db
        → respond order t q db1 ≡ halt h
        → o ≡ halt h
        → AtOnce q o db

  module _ (q : Request) (refusal : Response) (m : Method) (f : Reply m → Response) where
    -- That the server promises the refusal to a thread that is logged in as nobody, and else what
    -- the method brings.
    abbrev pub Refuses : Type 0
    Refuses =
        (d : Database)
        → respond order t q d ≡ (
            if Database.is_logged_in t d
            then perform order t m d >>= (λ r. done (f r.0, r.1))
            else done (refusal, d))

  module _ (o : Outcome (Response × Database)) where
    pub Runs-answer :
        (r : Response) (db : Database)
        → Runs order t o (Program.answer r) db
        → (db' : Database) × Others t db' db × (o ≡ done (r, db'))
    Runs-answer r db (answered s d e) = (db, no_more, e)
    Runs-answer r db (meanwhile p d db1 order' t' m s n e rest) =
        let (db', others, e') = Runs-answer r db1 rest in
        (db', one_more db order' t' m s n e others, e')

    -- The call of a method, after what other threads do before it.
    abbrev pub Called : (m : Method) → (Reply m → Program) → Database → Type 0
    Called m k db =
        (r : Reply m) × (db' : Database) × (perform order t m db ≡ done (r, db'))
        × Runs order t o (k r) db'

    abbrev pub Stopped : Method → Database → Type 0
    Stopped m db = (h : Halt) × (perform order t m db ≡ halt h) × (o ≡ halt h)

    pub Runs-call :
        (m : Method) (k : Reply m → Program) (db : Database)
        → Runs order t o (Program.call m k) db
        → (db1 : Database) × Others t db1 db × (Called m k db1 ⊎ Stopped m db1)
    Runs-call m k db (called m' k' d r db' e rest) = (db, no_more, inl (r, db', e, rest))
    Runs-call m k db (stopped m' k' d h e e') = (db, no_more, inr (h, e, e'))
    Runs-call m k db (meanwhile p d db1 order' t' m' s n e rest) =
        let (db2, others, c) = Runs-call m k db1 rest in
        (db2, one_more db order' t' m' s n e others, c)

    -- A call after which nothing is left to do but to answer serves the request, if the request
    -- would have been served alike; `d1` is the database that the call finds.
    pub last_call :
        (q : Request) (m : Method) (f : Reply m → Response) (db db1 d1 : Database)
        → respond order t q db1 ≡ (perform order t m d1 >>= λ r. done (f r.0, r.1))
        → Others t db1 db
        → Called m (λ r. Program.answer (f r)) d1 ⊎ Stopped m d1
        → AtOnce q o db
    last_call q m f db db1 d1 promise before (inl (r, d2, e, rest)) =
        let (d3, after, e') = Runs-answer (f r) d2 rest in
        served db1 d2 d3 (f r) before (promise ∙ ap (λ x. x >>= λ a. done (f a.0, a.1)) e) after e'
    last_call q m f db db1 d1 promise before (inr (h, e, e')) =
        halted db1 h before (promise ∙ ap (λ x. x >>= λ a. done (f a.0, a.1)) e) e'

    pub one_call :
        (q : Request) (m : Method) (f : Reply m → Response) (db db1 : Database)
        → ((d : Database)
            → lookup t d.threads_ ≡ lookup t db1.threads_
            → respond order t q d ≡ (perform order t m d >>= λ r. done (f r.0, r.1)))
        → Others t db1 db
        → Runs order t o (Program.call m λ r. Program.answer (f r)) db1
        → AtOnce q o db
    one_call q m f db db1 promise before runs =
        let (db2, between, ends) = Runs-call m _ db1 runs in
        last_call q m f db db2 db2 (promise db2 (Others-lookup between))
          (Others-append between before) ends

    -- The test whether the thread is logged in, with what the handler does on its result.
    pub Runs-check :
        (k : Bool → Program) (db : Database)
        → Runs order t o (Program.call Method.is_logged_in k) db
        → (db1 : Database) × Others t db1 db × Runs order t o (k (Database.is_logged_in t db1)) db1
    unfolding perform
    Runs-check k db runs =
        let (db1, others, ends) = Runs-call Method.is_logged_in k db runs in
        elim ends [
          | inl (b, db2, e, rest) ↦
              let same = done_inj e in
              (
                db1,
                others,
                subst (λ (x : Bool × Database). Runs order t o (k x.0) x.1) (sym same) rest,
              )
          | inr (h, e, e') ↦ absurd (cc)
        ]

    module _ (q : Request) (refusal : Response) (m : Method) (f : Reply m → Response) where
      authorized_cases :
          (b : Bool) (db db1 : Database)
          → Refuses q refusal m f
          → Database.is_logged_in t db1 ≡ b
          → Others t db1 db
          → Runs order t o (go_on refusal m f b) db1
          → AtOnce q o db
      unfolding Database.is_logged_in
      authorized_cases true db db1 promise e before runs =
          one_call q m f db db1
            (λ d same.
              promise d
              ∙ ap
                  (λ b.
                    if b
                    then perform order t m d >>= (λ r. done (f r.0, r.1))
                    else done (refusal, d))
                  (ap is_some same ∙ e))
            before runs
      authorized_cases false db db1 promise e before runs =
          let (db2, after, e') = Runs-answer refusal db1 runs in
          served db1 db1 db2 refusal before
            (promise db1
              ∙ ap
                  (λ b.
                    if b
                    then perform order t m db1 >>= (λ r. done (f r.0, r.1))
                    else done (refusal, db1))
                  e)
            after e'

      -- The handlers that turn a thread away that is not logged in.
      pub authorized_call :
          (db : Database)
          → Refuses q refusal m f
          → Runs order t o (Program.call Method.is_logged_in (go_on refusal m f)) db
          → AtOnce q o db
      authorized_call db promise runs =
          let (db1, before, rest) = Runs-check (go_on refusal m f) db runs in
          authorized_cases (Database.is_logged_in t db1) db db1 promise refl before rest
