-- ===== src/Protocol/RecvTxtResponse.antt =====
-- `chat262::recv_txt_response`
use chat.Common.{ℕ, Outcome}
use chat.Chat.{Chat}
use chat.Buffer.{Bytes}
use chat.Protocol.Header.{MessageType, Message}
use chat.Protocol.Layout.Texts

unfoldable pub serialize : ℕ → Chat → Outcome Message
serialize stat_code c = Texts.serialize MessageType.recv_txt_response stat_code c

unfoldable pub deserialize : Bytes → Chat → Outcome (ℕ × Chat)
deserialize d c = Texts.deserialize d c
