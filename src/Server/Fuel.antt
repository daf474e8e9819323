-- ===== src/Server/Fuel.antt =====
-- No handler of the server's model runs out of fuel, whatever the database is.
use chat.Common.{
  ℕ, ◌≢◌, refl, not, List, [], ◌∷◌, Str, str_Key, nat_Key, lookup, is_some, keys, str_eq, modify,
  Halt, out_of_fuel, out_of_range, out_of_bounds, waiting, dangling_iterator, HaltsIn, HaltsIn-done,
  HaltsIn-fail, HaltsIn-halt, HaltsIn-bind, HaltsIn-if, HaltsIn-option,
}
use chat.Buffer.{Bytes, read_bytes}
use chat.Chat.{Chat}
use chat.Protocol.Header.{Message, MessageType, in_block, deserialize_header}
use chat.Protocol.Layout.Names
use chat.Protocol.Layout.Texts
use chat.Protocol.AccountsResponse
use chat.Protocol.RecvTxtResponse
use chat.Protocol.CorrespondentsResponse
use chat.Database
use chat.Database.{Database, User, ThreadId, user_at, erase_chat, erase_chats}
use chat.Server.{dispatch}
use chat.Server.Transport.{World}
use chat.Server.Halts.{Allowed, dispatch-HaltsIn}

abbrev pub NoFuel : Halt → Type 0
NoFuel h = h ≢ out_of_fuel

out_of_range-NoFuel : NoFuel out_of_range
out_of_range-NoFuel e = cc

out_of_bounds-NoFuel : NoFuel out_of_bounds
out_of_bounds-NoFuel e = cc

dangling-NoFuel : NoFuel dangling_iterator
dangling-NoFuel e = cc

pub waiting-NoFuel : NoFuel waiting
waiting-NoFuel e = cc

in_block-NoFuel : (m : Message) → HaltsIn NoFuel (in_block m)
unfolding in_block
in_block-NoFuel m =
    HaltsIn-if _ _ _ (HaltsIn-halt out_of_bounds out_of_bounds-NoFuel) (HaltsIn-done _ m refl)

names-NoFuel : (t : MessageType) (c : ℕ) (us : List Str) → HaltsIn NoFuel (Names.serialize t c us)
unfolding Names.serialize
names-NoFuel t c us = in_block-NoFuel _

texts-NoFuel : (t : MessageType) (n : ℕ) (c : Chat) → HaltsIn NoFuel (Texts.serialize t n c)
unfolding Texts.serialize
texts-NoFuel t n c = in_block-NoFuel _

read_bytes-NoFuel : (d : Bytes) (off len : ℕ) → HaltsIn NoFuel (read_bytes d off len)
unfolding read_bytes
read_bytes-NoFuel d off len =
    HaltsIn-if _ _ _ (HaltsIn-done _ _ refl) (HaltsIn-halt out_of_bounds out_of_bounds-NoFuel)

pub deserialize_header-NoFuel : (d : Bytes) → HaltsIn NoFuel (deserialize_header d)
unfolding deserialize_header
deserialize_header-NoFuel d = HaltsIn-if _ _ _ (HaltsIn-fail _) (
    HaltsIn-bind _ _ (read_bytes-NoFuel d 0 2) λ v e.
      HaltsIn-bind _ _ (read_bytes-NoFuel d 2 2)
        λ t e1. HaltsIn-bind _ _ (read_bytes-NoFuel d 4 4) λ l e2. HaltsIn-done _ _ refl)

module _ (order : List Str → List Str) (t : ThreadId) (db : Database) where
  user_at-NoFuel : (a : Str) → HaltsIn NoFuel (user_at a db)
  unfolding user_at
  user_at-NoFuel a =
      HaltsIn-option (lookup a db.users_) _ _ (HaltsIn-halt out_of_range out_of_range-NoFuel)
        λ u. HaltsIn-done _ u refl

  erase_chats-NoFuel :
      (me : Str) (cs : List Str) (us : List (Str × User)) → HaltsIn NoFuel (erase_chats me cs us)
  unfolding erase_chats
  erase_chats-NoFuel me [] us = HaltsIn-done _ us refl
  erase_chats-NoFuel me (c ∷ cs) us =
      HaltsIn-option (lookup c us) _ _ (HaltsIn-halt out_of_range out_of_range-NoFuel) λ v.
        HaltsIn-if (str_eq c me) _ _ (HaltsIn-halt dangling_iterator dangling-NoFuel)
          (erase_chats-NoFuel me cs (modify c (erase_chat me) us))

  send_txt-NoFuel : (r txt : Str) → HaltsIn NoFuel (Database.send_txt t r txt db)
  unfolding Database.send_txt
  send_txt-NoFuel r txt = HaltsIn-option (lookup t db.threads_) _ _ (HaltsIn-done _ _ refl) λ me.
      HaltsIn-bind (user_at me db) _ (user_at-NoFuel me) λ u e.
        HaltsIn-option (lookup r db.users_) _ _ (HaltsIn-done _ _ refl) λ v. HaltsIn-done _ _ refl

  recv_txt-NoFuel : (o : Str) (c : Chat) → HaltsIn NoFuel (Database.recv_txt t o c db)
  unfolding Database.recv_txt
  recv_txt-NoFuel o c = HaltsIn-option (lookup t db.threads_) _ _ (HaltsIn-done _ _ refl) λ me.
      HaltsIn-bind (user_at me db) _ (user_at-NoFuel me) λ u e.
        HaltsIn-if (not (is_some (lookup o db.users_))) _ _ (HaltsIn-done _ _ refl) (
          HaltsIn-option (lookup o u.chats_) _ _ (HaltsIn-done _ _ refl) λ v. HaltsIn-done _ _ refl)

  get_correspondents-NoFuel :
      (ns : List Str) → HaltsIn NoFuel (Database.get_correspondents order t ns db)
  unfolding Database.get_correspondents
  get_correspondents-NoFuel ns =
      HaltsIn-option (lookup t db.threads_) _ _ (HaltsIn-done _ _ refl)
        λ me. HaltsIn-bind (user_at me db) _ (user_at-NoFuel me) λ u e. HaltsIn-done _ _ refl

  delete_user-NoFuel : HaltsIn NoFuel (Database.delete_user order t db)
  unfolding Database.delete_user
  delete_user-NoFuel = HaltsIn-option (lookup t db.threads_) _ _ (HaltsIn-done _ _ refl) λ me.
      HaltsIn-bind (user_at me db) _ (user_at-NoFuel me) λ u e.
        HaltsIn-bind (erase_chats me (order (keys u.chats_)) db.users_) _
          (erase_chats-NoFuel me (order (keys u.chats_)) db.users_) λ us e1. HaltsIn-done _ _ refl

  allowed : Allowed NoFuel order t db
  unfolding AccountsResponse.serialize RecvTxtResponse.serialize CorrespondentsResponse.serialize
  allowed = record {
    waits = waiting-NoFuel;
    texts_sent = send_txt-NoFuel;
    texts_read = λ u. recv_txt-NoFuel u _;
    correspondents_listed = get_correspondents-NoFuel [];
    user_deleted = delete_user-NoFuel;
    accounts_written = λ p. names-NoFuel _ _ _;
    texts_written = λ u r e. texts-NoFuel _ _ _;
    correspondents_written = λ r e. names-NoFuel _ _ _;
  }

pub dispatch-NoFuel :
    (order : List Str → List Str) (t : ThreadId) (type : ℕ) (body : Bytes) (w : World)
    → HaltsIn NoFuel (dispatch order t type body w)
dispatch-NoFuel order t type body w =
    dispatch-HaltsIn NoFuel order t body w (allowed order t w.database_) type
