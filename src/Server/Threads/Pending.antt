-- ===== src/Server/Threads/Pending.antt =====
-- Threads between the `logout` and the `login` of `server::handle_login`: the database as it is, and
-- as it would be if they had not been logged out yet.
use chat.Common.{
  ◌≡◌, ◌≢◌, refl, sym, ap, ◌∙◌, Bool, true, false, if◌then◌else◌, List, [], ◌∷◌, Str, arith, nat_eq,
  nat_Key, lookup, erase, contains, lookup-erase, Outcome, done, fail, halt, ◌>>=◌, answered-bind,
  if_cases, nat_eq_iff, Ends, Ends-done, Ends-bind,
}
use chat.Database.{Database, ThreadId}
use chat.Database.Methods.{Method, perform}
use chat.Server.Interleaving.{Program}
use chat.Server.Interleaving.Commute.{erase-erase, without, perform-Commutes, perform-Spares}
use chat.Server.Threads.{advance}

abbrev pub leave_out : List ThreadId → Database → Database
leave_out [] db = db
leave_out (u ∷ us) db = without u (leave_out us db)

abbrev pub remove : ThreadId → List ThreadId → List ThreadId
remove t [] = []
remove t (u ∷ us) = let rest = remove t us in if nat_eq u t then rest else u ∷ rest

-- The database as thread `t` finds it, if it is pending or not.
abbrev pub found : Bool → ThreadId → Database → Database
found x t db = if x then without t db else db

erase_twice {κ} :
    {V : Type κ} (k : ThreadId) (m : List (ThreadId × V)) → erase k (erase k m) ≡ erase k m
unfolding erase
erase_twice k [] = refl
erase_twice k ((i, v) ∷ m) = ground (arith, erase_twice k m)

without_swap :
    (t u : ThreadId) (db : Database) → without t (without u db) ≡ without u (without t db)
without_swap t u db = ap (λ ts. record db { threads_ = ts }) (erase-erase t u db.threads_)

without_twice : (t : ThreadId) (db : Database) → without t (without t db) ≡ without t db
without_twice t db = ap (λ ts. record db { threads_ = ts }) (erase_twice t db.threads_)

pub leave_out-without :
    (t : ThreadId) (us : List ThreadId) (db : Database)
    → leave_out us (without t db) ≡ without t (leave_out us db)
leave_out-without t [] db = refl
leave_out-without t (u ∷ us) db = ap (without u) (leave_out-without t us db) ∙ without_swap u t _

without-remove :
    (t : ThreadId) (us : List ThreadId) (db : Database)
    → without t (leave_out us db) ≡ without t (leave_out (remove t us) db)
without-remove t [] db = refl
without-remove t (u ∷ us) db =
    if_cases (λ vs. without t (without u (leave_out us db)) ≡ without t (leave_out vs db))
      (nat_eq u t) (remove t us) (u ∷ remove t us)
      (λ e.
        ap (λ v. without t (without v (leave_out us db))) ((nat_eq_iff u t).0 e)
        ∙ without_twice t (leave_out us db)
        ∙ without-remove t us db)
      (λ e.
        without_swap t u (leave_out us db)
        ∙ ap (without u) (without-remove t us db)
        ∙ without_swap u t (leave_out (remove t us) db))

-- A thread's own place among the pending ones.
pub leave_out-remove :
    (t : ThreadId) (us : List ThreadId) (db : Database)
    → leave_out us db ≡ leave_out (remove t us) (found (contains t us) t db)
unfolding contains
leave_out-remove t [] db = refl
leave_out-remove t (u ∷ us) db = split (nat_eq u t) refl (leave_out-remove t us db)
  where
    split :
        (b : Bool)
        → nat_eq u t ≡ b
        → leave_out us db ≡ leave_out (remove t us) (found (contains t us) t db)
        → without u (leave_out us db)
          ≡ leave_out
              (if b then remove t us else u ∷ remove t us)
              (found (if b then true else contains t us) t db)
    split true e rest =
        ap (λ v. without v (leave_out us db)) ((nat_eq_iff u t).0 e)
        ∙ without-remove t us db
        ∙ sym (leave_out-without t (remove t us) db)
    split false e rest = ap (without u) rest

pub contains-remove :
    (t u : ThreadId) (us : List ThreadId)
    → contains u (remove t us) ≡ (if nat_eq u t then false else contains u us)
unfolding contains
contains-remove t u [] = ground arith
contains-remove t u (v ∷ us) = ground (arith, contains-remove t u us)

bind_same {ℓ κ} : {A : Type ℓ} {B : Type κ} (o : Outcome (A × B)) → o ≡ (o >>= λ r. done (r.0, r.1))
bind_same (done r) = refl
bind_same (fail s) = refl
bind_same (halt h) = refl

-- A thread that is not pending finds, does and changes the same.
pub perform-leave_out :
    (order : List Str → List Str) (t : ThreadId) (m : Method) (us : List ThreadId) (db : Database)
    → contains t us ≡ false
    → perform order t m (leave_out us db)
      ≡ (perform order t m db >>= λ r. done (r.0, leave_out us r.1))
unfolding contains
perform-leave_out order t m [] db h = bind_same (perform order t m db)
perform-leave_out order t m (u ∷ us) db h =
    perform-Commutes order u t (ground (arith, nat_eq_iff u t)) (leave_out us db) m
    ∙ ap (λ o. o >>= λ r. done (r.0, without u r.1))
        (perform-leave_out order t m us db (ground arith))
    ∙ sym (answered-bind _ (perform order t m db) _ _ λ r e. refl)

pub advance-leave_out :
    (order : List Str → List Str) (t : ThreadId) (p : Program) (us : List ThreadId) (db : Database)
    → contains t us ≡ false
    → advance order t p (leave_out us db)
      ≡ (advance order t p db >>= λ r. done (r.0, leave_out us r.1))
unfolding advance
advance-leave_out order t (Program.answer r) us db h = refl
advance-leave_out order t (Program.call m k) us db h =
    ap (λ o. o >>= λ r. done (k r.0, r.1)) (perform-leave_out order t m us db h)
    ∙ sym (answered-bind _ (perform order t m db) _ _ λ r e. refl)
    ∙ answered-bind _ (perform order t m db) _ _ λ r e. refl

-- The logins of the threads other than `t` as they were.
pub lookup-leave_out :
    (u : ThreadId) (us : List ThreadId) (db : Database)
    → contains u us ≡ false
    → lookup u (leave_out us db).threads_ ≡ lookup u db.threads_
unfolding contains
lookup-leave_out u [] db h = refl
lookup-leave_out u (v ∷ us) db h =
    ground
      (arith, nat_eq_iff v u, lookup-erase v u (leave_out us db).threads_, lookup-leave_out u us db)

pub advance-Spares :
    (order : List Str → List Str) (t u : ThreadId) (p : Program) (db : Database)
    → t ≢ u
    → Ends
        (λ (r : Program × Database). lookup u r.1.threads_ ≡ lookup u db.threads_)
        (advance order t p db)
unfolding advance
advance-Spares order t u (Program.answer r) db n = Ends-done _ refl
advance-Spares order t u (Program.call m k) db n =
    Ends-bind _ _ (perform-Spares order u t n db m) λ r e. Ends-done _ e
