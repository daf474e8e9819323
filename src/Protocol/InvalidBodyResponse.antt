-- ===== src/Protocol/InvalidBodyResponse.antt =====
-- `chat262::invalid_body_response`
use chat.Common.{Outcome}
use chat.Buffer.{Bytes}
use chat.Protocol.Header.{MessageType, Message}
use chat.Protocol.Layout.Empty

unfoldable pub serialize : Message
serialize = Empty.serialize MessageType.invalid_body_response

unfoldable pub deserialize : Bytes → Outcome (Unit {0})
deserialize d = Empty.deserialize d
