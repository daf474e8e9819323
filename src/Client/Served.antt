-- ===== src/Client/Served.antt =====
-- What the server's thread sends for a request, byte for byte.
use chat.Common.{
  ℕ, ◌≡◌, ◌∙◌, Bool, true, false, List, [], ◌∷◌, ◌++◌, length, if◌then◌else◌, Str, Status, done,
  Ends, Ends-done, Ends-bind, Ends-if,
}
use chat.Chat.{Chat}
use chat.Protocol.Header.{Message, msgtype, message_bytes, status_code, StatusCode}
use chat.Protocol.Requests.{Request, encode, kind}
use chat.Protocol.Requests
use chat.Protocol.Responses.{Response}
use chat.Protocol.Responses
use chat.Database
use chat.Database.{Database, ThreadId}
use chat.Server.{is_ok, username_refused, password_refused, dispatch}
use chat.Server.Transport.{SendResult, accepted, World}
use chat.Server.Sends.{send_msg_whole}
use chat.Server.Service.{no_texts_at_all, respond, dispatch_responds}
use chat.Client.Answers.{Answers, answer-Sound}

module _ (order : List Str → List Str) (t : ThreadId) (db : Database) where
  abbrev Answering : Request → Response × Database → Type 0
  Answering q r = Answers q r.0

  texts-Answering :
      (b : Bool) (u : Str) (c : Chat) (n : ℕ)
      → Answers (Request.recv_txt u) (if b then Response.recv_txt c else Response.no_texts n)
  texts-Answering true u c n = tt
  texts-Answering false u c n = tt

  -- The promised response is one to the request.
  respond-Answering : (q : Request) → Ends (Answering q) (respond order t q db)
  unfolding respond
  respond-Answering (Request.registration u p) =
      Ends-if (username_refused u) _ _ (Ends-done _ tt)
        (Ends-if (password_refused p) _ _ (Ends-done _ tt) (Ends-done _ tt))
  respond-Answering (Request.login u p) = Ends-done _ tt
  respond-Answering Request.logout =
      Ends-if (Database.is_logged_in t db) _ _ (Ends-done _ tt) (Ends-done _ tt)
  respond-Answering (Request.accounts p) =
      Ends-if (Database.is_logged_in t db) _ _ (Ends-done _ tt) (Ends-done _ tt)
  respond-Answering (Request.send_txt r txt) =
      Ends-if (Database.is_logged_in t db) _ _
        (Ends-bind {Q = λ s. Unit {0}} (Database.send_txt t r txt db) _ (record { at = λ s e. tt })
          λ s q. Ends-done _ tt)
        (Ends-done _ tt)
  respond-Answering (Request.recv_txt u) =
      Ends-if (Database.is_logged_in t db) _ _
        (Ends-bind {Q = λ s. Unit {0}} (Database.recv_txt t u no_texts_at_all db) _
          (record { at = λ s e. tt })
          λ c q.
            Ends-done _ (texts-Answering (is_ok c.0) u c.1 (status_code StatusCode.user_noexist)))
        (Ends-done _ tt)
  respond-Answering Request.correspondents =
      Ends-if (Database.is_logged_in t db) _ _
        (Ends-bind {Q = λ s. Unit {0}} (Database.get_correspondents order t [] db) _
          (record { at = λ s e. tt }) λ s q. Ends-done _ tt)
        (Ends-done _ tt)
  respond-Answering Request.delete =
      Ends-if (Database.is_logged_in t db) _ _
        (Ends-bind {Q = λ s. Unit {0}} (Database.delete_user order t db) _
          (record { at = λ s e. tt }) λ s q. Ends-done _ tt)
        (Ends-done _ tt)

-- The message that the server forms.
abbrev pub formed : Response → Message
formed r = Responses.encode [] no_texts_at_all r

module _ (order : List Str → List Str) (t : ThreadId) (w : World) (ws : List SendResult)
    (q : Request) (r : Response) (db' : Database) (fits : Requests.Fits q)
    (promised : respond order t q w.database_ ≡ done (r, db')) (rfits : Responses.Fits r)
    (taken : w.sends ≡ accepted (length (message_bytes (formed r))) ∷ ws) where
  pub answers : Answers q r
  answers = (respond-Answering order t w.database_ q).at (r, db') promised

  -- The server's thread puts the message for `r` on its wire once, with the database as promised.
  pub dispatch_answers :
      dispatch order t (msgtype (kind q)) (encode q).body_ w
      ≡ done (
        Status.ok,
        record w { database_ = db'; sends = ws; wire = w.wire ++ message_bytes (formed r) },
      )
  dispatch_answers =
      dispatch_responds order t w q fits
      ∙ rw (promised, Responses.written-Fits [] no_texts_at_all r rfits)
          (send_msg_whole (formed r) (answer-Sound [] no_texts_at_all q r answers rfits).sized
            (record w { database_ = db' }) ws taken)
