-- ===== src/Protocol/InvalidTypeResponse.antt =====
-- `chat262::invalid_type_response`
use chat.Common.{Outcome}
use chat.Buffer.{Bytes}
use chat.Protocol.Header.{MessageType, Message}
use chat.Protocol.Layout.Empty

unfoldable pub serialize : Message
serialize = Empty.serialize MessageType.invalid_type_response

unfoldable pub deserialize : Bytes → Outcome (Unit {0})
deserialize d = Empty.deserialize d
