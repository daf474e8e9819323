-- ===== src/Protocol/CorrespondentsResponse.antt =====
-- `chat262::correspondents_response`
use chat.Common.{ℕ, List, Outcome, Str}
use chat.Buffer.{Bytes}
use chat.Protocol.Header.{MessageType, Message}
use chat.Protocol.Layout.Names

unfoldable pub serialize : ℕ → List Str → Outcome Message
serialize stat_code usernames =
    Names.serialize MessageType.correspondents_response stat_code usernames

unfoldable pub deserialize : Bytes → List Str → Outcome (ℕ × List Str)
deserialize d usernames = Names.deserialize d usernames
