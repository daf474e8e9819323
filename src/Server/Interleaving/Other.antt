-- ===== src/Server/Interleaving/Other.antt =====
-- What the threads other than one do, with and without that one's login.
use chat.Common.{
  bind_done, ◌≡◌, ◌≢◌, refl, sym, ap, ◌∙◌, List, Str, lookup, nat_Key, done, done_inj,
}
use chat.Database.{Database, ThreadId}
use chat.Database.Methods.{Method, Reply, perform}
use chat.Server.Interleaving.{Others, no_more, one_more}
use chat.Server.Interleaving.Commute.{without, perform-Commutes, perform-Spares}

module _ {t : ThreadId} where
  pub Others-lookup :
      {db' db : Database} → Others t db' db → lookup t db'.threads_ ≡ lookup t db.threads_
  Others-lookup no_more = refl
  Others-lookup (one_more db order t' m r n e rest) =
      Others-lookup rest ∙ (perform-Spares order t t' n db m).at _ e

  pub Others-append :
      {db3 db2 db1 : Database} → Others t db3 db2 → Others t db2 db1 → Others t db3 db1
  Others-append k no_more = k
  Others-append k (one_more db order t' m r n e rest) =
      one_more db order t' m r n e (Others-append k rest)

  -- What another thread does while `t` is logged out, it can do while `t` is logged in.
  step_without :
      {d db1 : Database} (order : List Str → List Str) (t' : ThreadId) (m : Method) (r : Reply m)
      (db : Database)
      → t' ≢ t
      → d ≡ without t db
      → perform order t' m d ≡ done (r, db1)
      → (s : Reply m) × (db2 : Database) × (perform order t' m db ≡ done (s, db2))
        × (db1 ≡ without t db2)
  step_without order t' m r db n same e =
      let (a, e1, e2) =
        bind_done (perform order t' m db) _ _
          (sym (perform-Commutes order t t' n db m) ∙ ap (perform order t' m) (sym same) ∙ e) in
      (a.0, a.1, e1, sym (ap (λ x. x.1) (done_inj e2)))

  pub Others-without :
      {db' d : Database} (db : Database)
      → d ≡ without t db
      → Others t db' d
      → (db2 : Database) × Others t db2 db × (db' ≡ without t db2)
  Others-without db same no_more = (db, no_more, same)
  Others-without db same (one_more d order t' m r n e rest) =
      let (s, db1, e1, same1) = step_without order t' m r db n same e in
      let (db2, others, same2) = Others-without db1 same1 rest in
      (db2, one_more db order t' m s n e1 others, same2)
