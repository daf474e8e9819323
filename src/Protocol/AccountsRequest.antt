-- ===== src/Protocol/AccountsRequest.antt =====
-- `chat262::accounts_request`
use chat.Common.{Outcome, Str}
use chat.Buffer.{Bytes}
use chat.Protocol.Header.{MessageType, Message}
use chat.Protocol.Layout.Single

unfoldable pub serialize : Str → Message
serialize pattern = Single.serialize MessageType.accounts_request pattern

unfoldable pub deserialize : Bytes → Outcome Str
deserialize d = Single.deserialize d
