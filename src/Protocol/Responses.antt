-- ===== src/Protocol/Responses.antt =====
-- The responses of the protocol as one type: what `deserialize` of each message makes of what
-- `serialize` wrote.
use chat.Common.{ℕ, ◌+◌, ◌*◌, ◌<◌, ◌^◌, ◌≡◌, ◌≢◌, refl, List, length, Str, Outcome, done}
use chat.Endianness.{IsU32}
use chat.Buffer.{Bytes}
use chat.Chat.{Chat}
use chat.Protocol.Header.{Message, MessageType, msgtype}
use chat.Protocol.Layout.Strings.{sum, lengths}
use chat.Protocol.Layout.Code
use chat.Protocol.Layout.Empty
use chat.Protocol.Layout.Names
use chat.Protocol.Layout.Texts
use chat.Protocol.Layout.Texts.{contents}
use chat.Protocol.RegistrationResponse
use chat.Protocol.LoginResponse
use chat.Protocol.LogoutResponse
use chat.Protocol.AccountsResponse
use chat.Protocol.SendTxtResponse
use chat.Protocol.RecvTxtResponse
use chat.Protocol.CorrespondentsResponse
use chat.Protocol.DeleteResponse
use chat.Protocol.WrongVersionResponse
use chat.Protocol.InvalidTypeResponse
use chat.Protocol.InvalidBodyResponse

pub data Response : Type 0 where
  registration login logout send_txt delete : ℕ → Response
  -- what a client is told with status OK
  accounts correspondents : List Str → Response
  recv_txt : Chat → Response
  -- another status code, in a response that has more to tell with status OK
  no_accounts no_correspondents no_texts : ℕ → Response
  wrong_version : ℕ → Response
  invalid_type invalid_body : Response

abbrev pub kind : Response → MessageType
kind (registration c) = MessageType.registration_response
kind (login c) = MessageType.login_response
kind (logout c) = MessageType.logout_response
kind (send_txt c) = MessageType.send_txt_response
kind (delete c) = MessageType.delete_response
kind (accounts names) = MessageType.accounts_response
kind (no_accounts c) = MessageType.accounts_response
kind (correspondents names) = MessageType.correspondents_response
kind (no_correspondents c) = MessageType.correspondents_response
kind (recv_txt c) = MessageType.recv_txt_response
kind (no_texts c) = MessageType.recv_txt_response
kind (wrong_version v) = MessageType.wrong_version_response
kind invalid_type = MessageType.invalid_type_response
kind invalid_body = MessageType.invalid_body_response

-- The message of a response. `names` and `texts` are what the server passes next to a status other
-- than OK.
abbrev pub encode : List Str → Chat → Response → Message
encode names texts (registration c) = RegistrationResponse.serialize c
encode names texts (login c) = LoginResponse.serialize c
encode names texts (logout c) = LogoutResponse.serialize c
encode names texts (send_txt c) = SendTxtResponse.serialize c
encode names texts (delete c) = DeleteResponse.serialize c
encode names texts (accounts us) = Names.message MessageType.accounts_response 0 us
encode names texts (no_accounts c) = Names.message MessageType.accounts_response c names
encode names texts (correspondents us) = Names.message MessageType.correspondents_response 0 us
encode names texts (no_correspondents c) = Names.message MessageType.correspondents_response c names
encode names texts (recv_txt c) = Texts.message MessageType.recv_txt_response 0 c
encode names texts (no_texts c) = Texts.message MessageType.recv_txt_response c texts
encode names texts (wrong_version v) = WrongVersionResponse.serialize v
encode names texts invalid_type = InvalidTypeResponse.serialize
encode names texts invalid_body = InvalidBodyResponse.serialize

-- The call of `serialize` that the server forms it with.
abbrev pub written : List Str → Chat → Response → Outcome Message
written names texts (accounts us) = AccountsResponse.serialize 0 us
written names texts (no_accounts c) = AccountsResponse.serialize c names
written names texts (correspondents us) = CorrespondentsResponse.serialize 0 us
written names texts (no_correspondents c) = CorrespondentsResponse.serialize c names
written names texts (recv_txt c) = RecvTxtResponse.serialize 0 c
written names texts (no_texts c) = RecvTxtResponse.serialize c texts
written names texts r = done (encode names texts r)

-- What the client reads from a body into `names` and `texts`.
abbrev pub Decodes : List Str → Chat → Bytes → Response → Type 0
Decodes names texts d (registration c) = RegistrationResponse.deserialize d ≡ done c
Decodes names texts d (login c) = LoginResponse.deserialize d ≡ done c
Decodes names texts d (logout c) = LogoutResponse.deserialize d ≡ done c
Decodes names texts d (send_txt c) = SendTxtResponse.deserialize d ≡ done c
Decodes names texts d (delete c) = DeleteResponse.deserialize d ≡ done c
Decodes names texts d (accounts us) = AccountsResponse.deserialize d names ≡ done (0, us)
Decodes names texts d (no_accounts c) = AccountsResponse.deserialize d names ≡ done (c, names)
Decodes names texts d (correspondents us) =
    CorrespondentsResponse.deserialize d names ≡ done (0, us)
Decodes names texts d (no_correspondents c) =
    CorrespondentsResponse.deserialize d names ≡ done (c, names)
Decodes names texts d (recv_txt c) = RecvTxtResponse.deserialize d texts ≡ done (0, c)
Decodes names texts d (no_texts c) = RecvTxtResponse.deserialize d texts ≡ done (c, texts)
Decodes names texts d (wrong_version v) = WrongVersionResponse.deserialize d ≡ done v
Decodes names texts d invalid_type = InvalidTypeResponse.deserialize d ≡ done tt
Decodes names texts d invalid_body = InvalidBodyResponse.deserialize d ≡ done tt

-- A number fits its integer, and a whole body is shorter than 2 ^ 32 bytes.
abbrev pub Fits : Response → Type 0
Fits (registration c) = IsU32 c
Fits (login c) = IsU32 c
Fits (logout c) = IsU32 c
Fits (send_txt c) = IsU32 c
Fits (delete c) = IsU32 c
Fits (accounts us) = 8 + 4 * length us + sum (lengths us) < 2 ^ 32
Fits (no_accounts c) = IsU32 c × (c ≢ 0)
Fits (correspondents us) = 8 + 4 * length us + sum (lengths us) < 2 ^ 32
Fits (no_correspondents c) = IsU32 c × (c ≢ 0)
Fits (recv_txt c) = 8 + 5 * length c.texts_ + sum (lengths (contents c.texts_)) < 2 ^ 32
Fits (no_texts c) = IsU32 c × (c ≢ 0)
Fits (wrong_version v) = v < 2 ^ 16
Fits invalid_type = Unit {0}
Fits invalid_body = Unit {0}

read_back :
    (sent received : List Str) (sent_chat received_chat : Chat) (r : Response)
    → Fits r
    → Decodes received received_chat (encode sent sent_chat r).body_ r
      × ((encode sent sent_chat r).hdr_.type_ ≡ msgtype (kind r))
read_back ns old cs oc (registration c) h =
    unfold RegistrationResponse.serialize RegistrationResponse.deserialize Code.serialize in
    (Code.deserialize-body c h, refl)
read_back ns old cs oc (login c) h =
    unfold LoginResponse.serialize LoginResponse.deserialize Code.serialize in
    (Code.deserialize-body c h, refl)
read_back ns old cs oc (logout c) h =
    unfold LogoutResponse.serialize LogoutResponse.deserialize Code.serialize in
    (Code.deserialize-body c h, refl)
read_back ns old cs oc (send_txt c) h =
    unfold SendTxtResponse.serialize SendTxtResponse.deserialize Code.serialize in
    (Code.deserialize-body c h, refl)
read_back ns old cs oc (delete c) h =
    unfold DeleteResponse.serialize DeleteResponse.deserialize Code.serialize in
    (Code.deserialize-body c h, refl)
read_back ns old cs oc (accounts us) h =
    unfold AccountsResponse.deserialize Names.message in (Names.deserialize-body_ok us h old, refl)
read_back ns old cs oc (no_accounts c) h =
    unfold AccountsResponse.deserialize Names.message in
    (Names.deserialize-body_other c ns old h.0 h.1, refl)
read_back ns old cs oc (correspondents us) h =
    unfold CorrespondentsResponse.deserialize Names.message in
    (Names.deserialize-body_ok us h old, refl)
read_back ns old cs oc (no_correspondents c) h =
    unfold CorrespondentsResponse.deserialize Names.message in
    (Names.deserialize-body_other c ns old h.0 h.1, refl)
read_back ns old cs oc (recv_txt c) h =
    unfold RecvTxtResponse.deserialize Texts.message in (Texts.deserialize-body_ok c h oc, refl)
read_back ns old cs oc (no_texts c) h =
    unfold RecvTxtResponse.deserialize Texts.message in
    (Texts.deserialize-body_other c cs oc h.0 h.1, refl)
read_back ns old cs oc (wrong_version v) h =
    (WrongVersionResponse.deserialize-serialize v h, unfold WrongVersionResponse.serialize in refl)
read_back ns old cs oc invalid_type h =
    unfold InvalidTypeResponse.serialize InvalidTypeResponse.deserialize Empty.serialize
      Empty.deserialize in
    (refl, refl)
read_back ns old cs oc invalid_body h =
    unfold InvalidBodyResponse.serialize InvalidBodyResponse.deserialize Empty.serialize
      Empty.deserialize in
    (refl, refl)

pub written-Fits :
    (names : List Str) (texts : Chat) (r : Response)
    → Fits r
    → written names texts r ≡ done (encode names texts r)
written-Fits names texts (accounts us) h =
    unfold AccountsResponse.serialize in Names.serialize-fits us h MessageType.accounts_response
written-Fits names texts (no_accounts c) h =
    unfold AccountsResponse.serialize in
    Names.serialize-other MessageType.accounts_response c names h.1
written-Fits names texts (correspondents us) h =
    unfold CorrespondentsResponse.serialize in
    Names.serialize-fits us h MessageType.correspondents_response
written-Fits names texts (no_correspondents c) h =
    unfold CorrespondentsResponse.serialize in
    Names.serialize-other MessageType.correspondents_response c names h.1
written-Fits names texts (recv_txt c) h =
    unfold RecvTxtResponse.serialize in Texts.serialize-fits c h MessageType.recv_txt_response
written-Fits names texts (no_texts c) h =
    unfold RecvTxtResponse.serialize in
    Texts.serialize-other MessageType.recv_txt_response c texts h.1
written-Fits names texts (registration c) h = refl
written-Fits names texts (login c) h = refl
written-Fits names texts (logout c) h = refl
written-Fits names texts (send_txt c) h = refl
written-Fits names texts (delete c) h = refl
written-Fits names texts (wrong_version v) h = refl
written-Fits names texts invalid_type h = refl
written-Fits names texts invalid_body h = refl

-- A response that fits, formed by the server whatever it passes next to another status, is written
-- within its block, and is read by the client as that response; and a status other than OK leaves the
-- client's variables alone.
pub response_round_trip :
    (sent received : List Str) (sent_chat received_chat : Chat) (r : Response)
    → Fits r
    → (written sent sent_chat r ≡ done (encode sent sent_chat r))
      × Decodes received received_chat (encode sent sent_chat r).body_ r
      × ((encode sent sent_chat r).hdr_.type_ ≡ msgtype (kind r))
response_round_trip ns old cs oc r h =
    (written-Fits ns cs r h, (read_back ns old cs oc r h).0, (read_back ns old cs oc r h).1)
