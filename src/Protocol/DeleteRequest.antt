-- ===== src/Protocol/DeleteRequest.antt =====
-- `chat262::delete_request`
use chat.Common.{Outcome}
use chat.Buffer.{Bytes}
use chat.Protocol.Header.{MessageType, Message}
use chat.Protocol.Layout.Empty

unfoldable pub serialize : Message
serialize = Empty.serialize MessageType.delete_request

unfoldable pub deserialize : Bytes → Outcome (Unit {0})
deserialize d = Empty.deserialize d
