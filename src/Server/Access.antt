-- ===== src/Server/Access.antt =====
-- What a thread that is logged in as nobody can do.
use chat.Common.{◌≡◌, false}
use chat.Buffer.{Bytes}
use chat.Database
use chat.Database.{ThreadId}
use chat.Server.Transport.{World}
use chat.Protocol.LogoutRequest
use chat.Protocol.AccountsRequest
use chat.Protocol.SendTxtRequest
use chat.Protocol.RecvTxtRequest
use chat.Protocol.CorrespondentsRequest
use chat.Protocol.DeleteRequest

module _ (t : ThreadId) (body : Bytes) (w : World)
    (out : Database.is_logged_in t w.database_ ≡ false) where
  abbrev Same : Database.Database → Type 0
  Same db = db ≡ w.database_
