-- ===== src/Server/Interleaving/Alone.antt =====
-- The handlers of src/server/server.cc with no other thread in between, against their programs.
use chat.Common.{◌≡◌, refl, ap, sym, ◌∙◌, Bool, true, false, if◌then◌else◌, List, Str, done, ◌>>=◌}
use chat.Protocol.Header.{StatusCode, status_code, msgtype}
use chat.Protocol.Requests.{Request, encode, kind}
use chat.Protocol.Requests
use chat.Protocol.Responses.{Response}
use chat.Database
use chat.Database.{Database, ThreadId}
use chat.Server.{username_refused, password_refused, dispatch}
use chat.Server.Transport.{World}
use chat.Server.Service.{respond, reply, dispatch_responds}
use chat.Database.Methods.{Method, Reply, perform}
use chat.Server.Interleaving.{Program, program, log_in, said, registered, alone}
use chat.Server.Interleaving.Atomic.{go_on, Refuses}
use chat.Server.Interleaving.Serves.{
  logout-Refuses, accounts-Refuses, send_txt-Refuses, recv_txt-Refuses, correspondents-Refuses,
  delete-Refuses,
}

module _ (order : List Str → List Str) (t : ThreadId) (db : Database) where
  alone-go_on :
      (refusal : Response) (m : Method) (f : Reply m → Response) (b : Bool)
      → alone order t (go_on refusal m f b) db
        ≡ (if b then perform order t m db >>= (λ r. done (f r.0, r.1)) else done (refusal, db))
  unfolding alone
  alone-go_on refusal m f true = refl
  alone-go_on refusal m f false = refl

  checked_alone :
      (q : Request) (refusal : Response) (m : Method) (f : Reply m → Response)
      → Refuses order t q refusal m f
      → alone order t (Program.call Method.is_logged_in (go_on refusal m f)) db
        ≡ respond order t q db
  unfolding alone perform
  checked_alone q refusal m f h = alone-go_on refusal m f _ ∙ sym (h db)

  login_alone :
      (u p : Str) (b : Bool)
      → alone order t (if b then Program.call Method.logout (λ s. log_in u p) else log_in u p) db
        ≡ (let r = Database.login t u p (if b then (Database.logout t db).1 else db) in
            done (said r.0, r.1))
  unfolding alone perform
  login_alone u p true = refl
  login_alone u p false = refl

  registration_alone :
      (u p : Str) (b c : Bool)
      → alone order t
          (if b
            then Program.answer (Response.registration (status_code StatusCode.username_invalid))
            else if c
            then Program.answer (Response.registration (status_code StatusCode.password_invalid))
            else Program.call (Method.registration u p) λ s. Program.answer (registered s))
          db
        ≡ (if b
            then done (Response.registration (status_code StatusCode.username_invalid), db)
            else if c
            then done (Response.registration (status_code StatusCode.password_invalid), db)
            else let r = Database.registration u p db in done (registered r.0, r.1))
  unfolding alone perform
  registration_alone u p true c = refl
  registration_alone u p false true = refl
  registration_alone u p false false = refl

  pub alone-program : (q : Request) → alone order t (program q) db ≡ respond order t q db
  unfolding program
  alone-program (Request.registration u p) =
      unfold respond in registration_alone u p (username_refused u) (password_refused p)
  alone-program (Request.login u p) = unfold alone perform respond in login_alone u p _
  alone-program Request.logout = checked_alone _ _ _ _ (logout-Refuses order t)
  alone-program (Request.accounts p) = checked_alone _ _ _ _ (accounts-Refuses order t p)
  alone-program (Request.send_txt r txt) = checked_alone _ _ _ _ (send_txt-Refuses order t r txt)
  alone-program (Request.recv_txt u) = checked_alone _ _ _ _ (recv_txt-Refuses order t u)
  alone-program Request.correspondents = checked_alone _ _ _ _ (correspondents-Refuses order t)
  alone-program Request.delete = checked_alone _ _ _ _ (delete-Refuses order t)

-- Given a request that fits: its handler, with no other thread in between, calls the methods of the
-- request's program, one after another, and sends the response that the program ends with.
pub dispatch-alone :
    (order : List Str → List Str) (t : ThreadId) (w : World) (q : Request)
    → Requests.Fits q
    → dispatch order t (msgtype (kind q)) (encode q).body_ w
      ≡ (alone order t (program q) w.database_ >>= reply order t w)
dispatch-alone order t w q h =
    dispatch_responds order t w q h
    ∙ ap (λ o. o >>= reply order t w) (sym (alone-program order t w.database_ q))
