-- ===== src/Protocol/RegistrationRequest.antt =====
-- `chat262::registration_request`
use chat.Common.{Outcome, Str}
use chat.Buffer.{Bytes}
use chat.Protocol.Header.{MessageType, Message}
use chat.Protocol.Layout.Pair

unfoldable pub serialize : Str → Str → Message
serialize username password = Pair.serialize MessageType.registration_request username password

unfoldable pub deserialize : Bytes → Outcome (Str × Str)
deserialize d = Pair.deserialize d
