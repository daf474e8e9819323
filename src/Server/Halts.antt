-- ===== src/Server/Halts.antt =====
-- How a handler of src/server/server.cc can halt, from how the calls that it makes can.
use chat.Common.{
  ℕ, ◌+◌, ◌++◌, take, ◌≡◌, ◌≢◌, sym, subst, not, List, [], ◌∷◌, arith, nat_eq, Str, Status, Outcome,
  done, Halt, halt, waiting, HaltsIn, HaltsIn-done, HaltsIn-never, HaltsIn-bind, HaltsIn-if,
  if◌then◌else◌, ◌>>=◌,
}
use chat.Buffer.{Bytes}
use chat.Chat.{Chat}
use chat.Protocol.Header.{Message, header_size, message_bytes, StatusCode, status_code}
use chat.Endianness.{e_le32toh}
use chat.Protocol.Requests.{requests-ne-halt}
use chat.Protocol.Responses.{Response, written-Fits}
use chat.Database
use chat.Database.{Database, ThreadId}
use chat.Server.{
  is_ok, username_refused, password_refused, handle_registration, handle_login, handle_logout,
  handle_list_accounts, handle_send_txt, handle_recv_txt, handle_correspondents, handle_delete,
  handle_invalid_type, dispatch,
}
use chat.Server.Transport.{SendResult, accepted, refused, World, send_loop, send_msg}
use chat.Server.Service.{no_texts_at_all}
use chat.Protocol.RegistrationRequest
use chat.Protocol.LoginRequest
use chat.Protocol.LogoutRequest
use chat.Protocol.AccountsRequest
use chat.Protocol.AccountsResponse
use chat.Protocol.SendTxtRequest
use chat.Protocol.RecvTxtRequest
use chat.Protocol.RecvTxtResponse
use chat.Protocol.CorrespondentsRequest
use chat.Protocol.CorrespondentsResponse
use chat.Protocol.DeleteRequest

send_loop_waits :
    (rs : List SendResult) (msg : Bytes) (total_len total_sent : ℕ) (wire : Bytes) (h : Halt)
    → send_loop rs msg total_len total_sent wire ≡ halt h
    → h ≡ waiting
unfolding send_loop
send_loop_waits [] msg total_len total_sent wire h e = ground arith
send_loop_waits (refused ∷ rs) msg total_len total_sent wire h e = ground arith
send_loop_waits (accepted n ∷ rs) msg total_len total_sent wire h e =
    ground (arith, send_loop_waits rs msg total_len (total_sent + n) (wire ++ take n msg) h)

send_msg_waits : (m : Message) (w : World) (h : Halt) → send_msg m w ≡ halt h → h ≡ waiting
unfolding send_msg
send_msg_waits m w h e = ground (
  arith,
  send_loop_waits w.sends (message_bytes m) (header_size + e_le32toh m.hdr_.body_len_) 0 w.wire h,
)

module _ (P : Halt → Type 0) where
  -- The reasons of the calls that a handler makes: of the methods, of `serialize`, and of `send`.
  pub record Allowed (order : List Str → List Str) (t : ThreadId) (db : Database) : Type 0 where
    pub waits : P waiting
    pub texts_sent : (r txt : Str) → HaltsIn P (Database.send_txt t r txt db)
    pub texts_read : (u : Str) → HaltsIn P (Database.recv_txt t u no_texts_at_all db)
    pub correspondents_listed : HaltsIn P (Database.get_correspondents order t [] db)
    pub user_deleted : HaltsIn P (Database.delete_user order t db)
    pub accounts_written :
        (p : Str)
        → HaltsIn P
            (AccountsResponse.serialize (status_code StatusCode.ok) (Database.get_usernames p db))
    pub texts_written :
        (u : Str) (r : Status × Chat)
        → Database.recv_txt t u no_texts_at_all db ≡ done r
        → HaltsIn P (
            RecvTxtResponse.serialize
              (status_code (if is_ok r.0 then StatusCode.ok else StatusCode.user_noexist))
              r.1)
    pub correspondents_written :
        (r : Status × List Str)
        → Database.get_correspondents order t [] db ≡ done r
        → HaltsIn P (CorrespondentsResponse.serialize (status_code StatusCode.ok) r.1)

  pub send_msg-HaltsIn : (m : Message) (w : World) → P waiting → HaltsIn P (send_msg m w)
  send_msg-HaltsIn m w p = record { only = λ h e. subst P (sym (send_msg_waits m w h e)) p }

  module _ (order : List Str → List Str) (t : ThreadId) (body : Bytes) (w : World)
      (allowed : Allowed order t w.database_) where
    sends : (m : Message) (w' : World) → HaltsIn P (send_msg m w')
    sends m w' = send_msg-HaltsIn m w' allowed.waits

    serialized : (o : Outcome Message) → HaltsIn P o → HaltsIn P (o >>= λ m. send_msg m w)
    serialized o h = HaltsIn-bind o _ h λ m e. sends m w

    handle_registration-HaltsIn : HaltsIn P (handle_registration body w)
    unfolding handle_registration
    handle_registration-HaltsIn =
        HaltsIn-bind (RegistrationRequest.deserialize body) _
          (HaltsIn-never _ λ h. (requests-ne-halt body h).0)
          λ r e.
            HaltsIn-if (username_refused r.0) _ _ (sends _ _)
              (HaltsIn-if (password_refused r.1) _ _ (sends _ _) (sends _ _))

    handle_login-HaltsIn : HaltsIn P (handle_login t body w)
    unfolding handle_login
    handle_login-HaltsIn =
        HaltsIn-bind (LoginRequest.deserialize body) _
          (HaltsIn-never _ λ h. (requests-ne-halt body h).1) λ r e. sends _ _

    -- A request that a thread may make only if it is logged in.
    checked-HaltsIn :
        {A : Type 0} (m : Outcome A) (x : Outcome (Status × World))
        (f : A → Outcome (Status × World))
        → ((h : Halt) → m ≢ halt h)
        → HaltsIn P x
        → ((a : A) → HaltsIn P (f a))
        → HaltsIn P (m >>= λ a. if not (Database.is_logged_in t w.database_) then x else f a)
    checked-HaltsIn m x f n hx k =
        HaltsIn-bind m _ (HaltsIn-never m n)
          λ a e. HaltsIn-if (not (Database.is_logged_in t w.database_)) _ _ hx (k a)

    handle_logout-HaltsIn : HaltsIn P (handle_logout t body w)
    unfolding handle_logout
    handle_logout-HaltsIn =
        checked-HaltsIn (LogoutRequest.deserialize body) _ _ (λ h. (requests-ne-halt body h).5)
          (sends _ _) λ r. sends _ _

    handle_list_accounts-HaltsIn : HaltsIn P (handle_list_accounts t body w)
    unfolding handle_list_accounts AccountsResponse.serialize
    handle_list_accounts-HaltsIn =
        checked-HaltsIn (AccountsRequest.deserialize body) _ _ (λ h. (requests-ne-halt body h).3)
          (serialized _ (
            HaltsIn-done _ _ (
              written-Fits [] no_texts_at_all
                (Response.no_accounts (status_code StatusCode.unauthorized))
                (omega arith, λ e. omega (arith, e)))))
          λ p. serialized _ (allowed.accounts_written p)

    handle_send_txt-HaltsIn : HaltsIn P (handle_send_txt t body w)
    unfolding handle_send_txt
    handle_send_txt-HaltsIn =
        checked-HaltsIn (SendTxtRequest.deserialize body) _ _ (λ h. (requests-ne-halt body h).2)
          (sends _ _)
          λ r.
            HaltsIn-bind (Database.send_txt t r.0 r.1 w.database_) _ (allowed.texts_sent r.0 r.1)
              λ q e. sends _ _

    handle_recv_txt-HaltsIn : HaltsIn P (handle_recv_txt t body w)
    unfolding handle_recv_txt
    handle_recv_txt-HaltsIn =
        checked-HaltsIn (RecvTxtRequest.deserialize body) _ _ (λ h. (requests-ne-halt body h).4)
          (serialized _ (
            HaltsIn-done _ _ (
              written-Fits [] no_texts_at_all
                (Response.no_texts (status_code StatusCode.unauthorized))
                (omega arith, λ e. omega (arith, e)))))
          λ u.
            HaltsIn-bind (Database.recv_txt t u no_texts_at_all w.database_) _
              (allowed.texts_read u) λ r e. serialized _ (allowed.texts_written u r e)

    handle_correspondents-HaltsIn : HaltsIn P (handle_correspondents order t body w)
    unfolding handle_correspondents
    handle_correspondents-HaltsIn =
        checked-HaltsIn (CorrespondentsRequest.deserialize body) _ _
          (λ h. (requests-ne-halt body h).6)
          (serialized _ (
            HaltsIn-done _ _ (
              written-Fits [] no_texts_at_all
                (Response.no_correspondents (status_code StatusCode.unauthorized))
                (omega arith, λ e. omega (arith, e)))))
          λ u.
            HaltsIn-bind (Database.get_correspondents order t [] w.database_) _
              allowed.correspondents_listed λ r e. serialized _ (allowed.correspondents_written r e)

    handle_delete-HaltsIn : HaltsIn P (handle_delete order t body w)
    unfolding handle_delete
    handle_delete-HaltsIn =
        checked-HaltsIn (DeleteRequest.deserialize body) _ _ (λ h. (requests-ne-halt body h).7)
          (sends _ _)
          λ u.
            HaltsIn-bind (Database.delete_user order t w.database_) _ allowed.user_deleted
              λ r e. sends _ _

    handle_invalid_type-HaltsIn : HaltsIn P (handle_invalid_type w)
    unfolding handle_invalid_type
    handle_invalid_type-HaltsIn = sends _ _

    pub dispatch-HaltsIn : (type : ℕ) → HaltsIn P (dispatch order t type body w)
    unfolding dispatch
    dispatch-HaltsIn type = HaltsIn-if (nat_eq type 101) _ _ handle_registration-HaltsIn (
        HaltsIn-if (nat_eq type 102) _ _ handle_login-HaltsIn (
          HaltsIn-if (nat_eq type 103) _ _ handle_logout-HaltsIn (
            HaltsIn-if (nat_eq type 104) _ _ handle_list_accounts-HaltsIn (
              HaltsIn-if (nat_eq type 105) _ _ handle_send_txt-HaltsIn (
                HaltsIn-if (nat_eq type 106) _ _ handle_recv_txt-HaltsIn (
                  HaltsIn-if (nat_eq type 107) _ _ handle_correspondents-HaltsIn (
                    HaltsIn-if (nat_eq type 108) _ _ handle_delete-HaltsIn
                      handle_invalid_type-HaltsIn)))))))
