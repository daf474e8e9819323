-- ===== src/Protocol/LogoutRequest.antt =====
-- `chat262::logout_request`
use chat.Common.{Outcome}
use chat.Buffer.{Bytes}
use chat.Protocol.Header.{MessageType, Message}
use chat.Protocol.Layout.Empty

unfoldable pub serialize : Message
serialize = Empty.serialize MessageType.logout_request

unfoldable pub deserialize : Bytes → Outcome (Unit {0})
deserialize d = Empty.deserialize d
