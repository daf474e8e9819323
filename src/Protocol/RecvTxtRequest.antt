-- ===== src/Protocol/RecvTxtRequest.antt =====
-- `chat262::recv_txt_request`
use chat.Common.{Outcome, Str}
use chat.Buffer.{Bytes}
use chat.Protocol.Header.{MessageType, Message}
use chat.Protocol.Layout.Single

unfoldable pub serialize : Str → Message
serialize username = Single.serialize MessageType.recv_txt_request username

unfoldable pub deserialize : Bytes → Outcome Str
deserialize d = Single.deserialize d
