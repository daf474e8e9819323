-- ===== src/Protocol/Requests.antt =====
-- The requests of the protocol as one type: what `deserialize` of each message makes of what
-- `serialize` wrote, and of any other body.
use chat.Common.{◌+◌, ◌<◌, ◌^◌, ◌≡◌, refl, length, All, arith, ◌≢◌, Halt, halt, Str, done}
use chat.Endianness.{IsByte}
use chat.Buffer.{Bytes}
use chat.Protocol.Header.{Message, MessageType, msgtype, IsWellSized}
use chat.Protocol.Layout.Pair
use chat.Protocol.Layout.Single
use chat.Protocol.Layout.Empty
use chat.Protocol.RegistrationRequest
use chat.Protocol.LoginRequest
use chat.Protocol.LogoutRequest
use chat.Protocol.AccountsRequest
use chat.Protocol.SendTxtRequest
use chat.Protocol.RecvTxtRequest
use chat.Protocol.CorrespondentsRequest
use chat.Protocol.DeleteRequest

pub data Request : Type 0 where
  registration login send_txt : Str → Str → Request
  accounts recv_txt : Str → Request
  logout correspondents delete : Request

abbrev pub kind : Request → MessageType
kind (registration u p) = MessageType.registration_request
kind (login u p) = MessageType.login_request
kind (send_txt r t) = MessageType.send_txt_request
kind (accounts p) = MessageType.accounts_request
kind (recv_txt s) = MessageType.recv_txt_request
kind logout = MessageType.logout_request
kind correspondents = MessageType.correspondents_request
kind delete = MessageType.delete_request

-- The message that the client forms.
abbrev pub encode : Request → Message
encode (registration u p) = RegistrationRequest.serialize u p
encode (login u p) = LoginRequest.serialize u p
encode (send_txt r t) = SendTxtRequest.serialize r t
encode (accounts p) = AccountsRequest.serialize p
encode (recv_txt s) = RecvTxtRequest.serialize s
encode logout = LogoutRequest.serialize
encode correspondents = CorrespondentsRequest.serialize
encode delete = DeleteRequest.serialize

-- What the server reads from a body of the given type; a response is no request.
abbrev pub Decodes : MessageType → Bytes → Request → Type 0
Decodes MessageType.registration_request d (registration u p) =
    RegistrationRequest.deserialize d ≡ done (u, p)
Decodes MessageType.login_request d (login u p) = LoginRequest.deserialize d ≡ done (u, p)
Decodes MessageType.send_txt_request d (send_txt r t) = SendTxtRequest.deserialize d ≡ done (r, t)
Decodes MessageType.accounts_request d (accounts p) = AccountsRequest.deserialize d ≡ done p
Decodes MessageType.recv_txt_request d (recv_txt s) = RecvTxtRequest.deserialize d ≡ done s
Decodes MessageType.logout_request d logout = LogoutRequest.deserialize d ≡ done tt
Decodes MessageType.correspondents_request d correspondents =
    CorrespondentsRequest.deserialize d ≡ done tt
Decodes MessageType.delete_request d delete = DeleteRequest.deserialize d ≡ done tt
Decodes t d r = ⊥

-- The whole body is shorter than 2 ^ 32 bytes.
abbrev pub Fits : Request → Type 0
Fits (registration u p) = 8 + length u + length p < 2 ^ 32
Fits (login u p) = 8 + length u + length p < 2 ^ 32
Fits (send_txt r t) = 8 + length r + length t < 2 ^ 32
Fits (accounts p) = 4 + length p < 2 ^ 32
Fits (recv_txt s) = 4 + length s < 2 ^ 32
Fits r = Unit {0}

-- The body of a request that fits decodes to that request, and has the length and the type that the
-- header states.
pub encode-Decodes :
    (r : Request)
    → Fits r
    → Decodes (kind r) (encode r).body_ r
      × IsWellSized (encode r)
      × ((encode r).hdr_.type_ ≡ msgtype (kind r))
encode-Decodes (registration u p) h =
    unfold RegistrationRequest.serialize RegistrationRequest.deserialize Pair.serialize in
    (Pair.deserialize-body u p h, omega (arith, Pair.length-body u p h), refl)
encode-Decodes (login u p) h =
    unfold LoginRequest.serialize LoginRequest.deserialize Pair.serialize in
    (Pair.deserialize-body u p h, omega (arith, Pair.length-body u p h), refl)
encode-Decodes (send_txt u p) h =
    unfold SendTxtRequest.serialize SendTxtRequest.deserialize Pair.serialize in
    (Pair.deserialize-body u p h, omega (arith, Pair.length-body u p h), refl)
encode-Decodes (accounts p) h =
    unfold AccountsRequest.serialize AccountsRequest.deserialize Single.serialize in
    (Single.deserialize-body p h, omega (arith, Single.length-body p h), refl)
encode-Decodes (recv_txt p) h =
    unfold RecvTxtRequest.serialize RecvTxtRequest.deserialize Single.serialize in
    (Single.deserialize-body p h, omega (arith, Single.length-body p h), refl)
encode-Decodes logout h =
    unfold LogoutRequest.serialize LogoutRequest.deserialize Empty.serialize Empty.deserialize in
    (refl, refl, refl)
encode-Decodes correspondents h =
    unfold CorrespondentsRequest.serialize CorrespondentsRequest.deserialize Empty.serialize
      Empty.deserialize in
    (refl, refl, refl)
encode-Decodes delete h =
    unfold DeleteRequest.serialize DeleteRequest.deserialize Empty.serialize Empty.deserialize in
    (refl, refl, refl)

-- A body of bytes decodes to a request of some type only if it is the body that `serialize` of that
-- type writes for the same request.
pub Decodes-exact :
    (t : MessageType) (d : Bytes) (r : Request)
    → All IsByte d
    → Decodes t d r
    → (t ≡ kind r) × (d ≡ (encode r).body_)
Decodes-exact MessageType.registration_request d (registration u p) b h = (
  refl,
  unfold RegistrationRequest.serialize RegistrationRequest.deserialize Pair.serialize in
      Pair.deserialize-exact d u p b h,
)
Decodes-exact MessageType.login_request d (login u p) b h = (
  refl,
  unfold LoginRequest.serialize LoginRequest.deserialize Pair.serialize in
      Pair.deserialize-exact d u p b h,
)
Decodes-exact MessageType.send_txt_request d (send_txt u p) b h = (
  refl,
  unfold SendTxtRequest.serialize SendTxtRequest.deserialize Pair.serialize in
      Pair.deserialize-exact d u p b h,
)
Decodes-exact MessageType.accounts_request d (accounts p) b h = (
  refl,
  unfold AccountsRequest.serialize AccountsRequest.deserialize Single.serialize in
      Single.deserialize-exact d p b h,
)
Decodes-exact MessageType.recv_txt_request d (recv_txt p) b h = (
  refl,
  unfold RecvTxtRequest.serialize RecvTxtRequest.deserialize Single.serialize in
      Single.deserialize-exact d p b h,
)
Decodes-exact MessageType.logout_request d logout b h = (
  refl,
  unfold LogoutRequest.serialize LogoutRequest.deserialize Empty.serialize in
      Empty.deserialize-exact d h,
)
Decodes-exact MessageType.correspondents_request d correspondents b h = (
  refl,
  unfold CorrespondentsRequest.serialize CorrespondentsRequest.deserialize Empty.serialize in
      Empty.deserialize-exact d h,
)
Decodes-exact MessageType.delete_request d delete b h = (
  refl,
  unfold DeleteRequest.serialize DeleteRequest.deserialize Empty.serialize in
      Empty.deserialize-exact d h,
)
Decodes-exact t d r b h = absurd h

-- Whatever bytes arrive, no `deserialize` of a request reads outside the body.
pub requests-ne-halt :
    (d : Bytes) (h : Halt)
    → (RegistrationRequest.deserialize d ≢ halt h)
      × (LoginRequest.deserialize d ≢ halt h)
      × (SendTxtRequest.deserialize d ≢ halt h)
      × (AccountsRequest.deserialize d ≢ halt h)
      × (RecvTxtRequest.deserialize d ≢ halt h)
      × (LogoutRequest.deserialize d ≢ halt h)
      × (CorrespondentsRequest.deserialize d ≢ halt h)
      × (DeleteRequest.deserialize d ≢ halt h)
unfolding RegistrationRequest.deserialize LoginRequest.deserialize SendTxtRequest.deserialize
    AccountsRequest.deserialize RecvTxtRequest.deserialize LogoutRequest.deserialize
    CorrespondentsRequest.deserialize DeleteRequest.deserialize
requests-ne-halt d h = (
  Pair.deserialize-ne-halt d h,
  Pair.deserialize-ne-halt d h,
  Pair.deserialize-ne-halt d h,
  Single.deserialize-ne-halt d h,
  Single.deserialize-ne-halt d h,
  Empty.deserialize-ne-halt d h,
  Empty.deserialize-ne-halt d h,
  Empty.deserialize-ne-halt d h,
)
