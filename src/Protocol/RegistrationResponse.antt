-- ===== src/Protocol/RegistrationResponse.antt =====
-- `chat262::registration_response`
use chat.Common.{ℕ, Outcome}
use chat.Buffer.{Bytes}
use chat.Protocol.Header.{MessageType, Message}
use chat.Protocol.Layout.Code

unfoldable pub serialize : ℕ → Message
serialize stat_code = Code.serialize MessageType.registration_response stat_code

unfoldable pub deserialize : Bytes → Outcome ℕ
deserialize d = Code.deserialize d
