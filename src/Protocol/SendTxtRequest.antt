-- ===== src/Protocol/SendTxtRequest.antt =====
-- `chat262::send_txt_request`
use chat.Common.{Outcome, Str}
use chat.Buffer.{Bytes}
use chat.Protocol.Header.{MessageType, Message}
use chat.Protocol.Layout.Pair

unfoldable pub serialize : Str → Str → Message
serialize recipient txt = Pair.serialize MessageType.send_txt_request recipient txt

unfoldable pub deserialize : Bytes → Outcome (Str × Str)
deserialize d = Pair.deserialize d
