-- ===== src/Database.antt =====
-- include/server/database.h and src/server/database.cc. Every method holds `mutex_` from its first
-- statement to its return, so a method is one step; the executing thread is the argument `t`.
pub mod Wildcard
pub mod View
pub mod Sending
pub mod Delivery
pub mod Invariant
pub mod Erasing
pub mod Deletion
pub mod Accounts
pub mod Steps
pub mod Methods
pub mod Log
pub mod Names
use chat.Common.{
  ℕ, ◌≡◌, Bool, true, false, not, ◌||◌, Option, none, some, List, [], ◌∷◌, ◌++◌, Str, str_eq,
  str_lt, str_Key, nat_Key, if◌then◌else◌, Status, Outcome, done, halt, out_of_range,
  dangling_iterator, ◌>>=◌, lookup, insert, modify, erase, unordered, is_some, keys, contains,
}
use chat.Chat.{Text, Chat, sender_you, sender_other}
use Wildcard.{wildcard_match}

-- `std::thread::id`
abbrev pub ThreadId : Type 0
ThreadId = ℕ

pub record User : Type 0 where
  pub username_ : Str
  pub password_ : Str
  pub chats_ : List (Str × Chat)

pub record Database : Type 0 where
  pub users_ : List (Str × User)
  pub historical_users_ : List Str
  pub threads_ : List (ThreadId × Str)

abbrev pub empty : Database
empty = record { users_ = []; historical_users_ = []; threads_ = [] }

unfoldable pub login : ThreadId → Str → Str → Database → Status × Database
login t username password db =
    if is_some (lookup t db.threads_)
    then (Status.error, db)
    else elim (lookup username db.users_) [
      | none ↦ (Status.error, db)
      | some u ↦
          if not (str_eq password u.password_)
          then (Status.error, db)
          else (Status.ok, record db { threads_ = insert unordered t username db.threads_ })
    ]

unfoldable pub registration : Str → Str → Database → Status × Database
registration username password db =
    if is_some (lookup username db.users_) || contains username db.historical_users_
    then (Status.error, db)
    else (
      Status.ok,
      record db {
        users_ =
            insert str_lt username
              (record { username_ = username; password_ = password; chats_ = [] }) db.users_;
        historical_users_ = username ∷ db.historical_users_;
      },
    )

unfoldable pub logout : ThreadId → Database → Status × Database
logout t db = elim (lookup t db.threads_) [
  | none ↦ (Status.error, db)
  | some username ↦ (Status.ok, record db { threads_ = erase t db.threads_ })
]

unfoldable pub is_logged_in : ThreadId → Database → Bool
is_logged_in t db = is_some (lookup t db.threads_)

-- The loop of `get_usernames` over the ordered map.
unfoldable pub matching : Str → List (Str × User) → List Str
matching pat [] = []
matching pat ((name, u) ∷ us) =
    let rest = matching pat us in if wildcard_match pat name then name ∷ rest else rest

unfoldable pub get_usernames : Str → Database → List Str
get_usernames pat db = matching pat db.users_

-- `if (u.chats_.find(name) == u.chats_.end()) u.chats_.insert({name, {}});`
unfoldable pub ensure_chat : Str → User → User
ensure_chat name u =
    if is_some (lookup name u.chats_)
    then u
    else record u { chats_ = insert unordered name (record { texts_ = [] }) u.chats_ }

-- `u.chats_.at(name).texts_.push_back(txt);` for a chat that is there
unfoldable pub push_text : Str → Text → User → User
push_text name txt u = record u {
  chats_ = modify name (λ c. record { texts_ = c.texts_ ++ (txt ∷ []) }) u.chats_;
}

-- The four changes of `send_txt`, in the order of the source. `sender` and `recipient` are
-- references into `users_`, and may be one user.
unfoldable pub exchange : Str → Str → Str → Str → List (Str × User) → List (Str × User)
exchange me sender_name recipient_name txt us =
    let us1 = modify me (ensure_chat recipient_name) us in
    let us2 = modify recipient_name (ensure_chat sender_name) us1 in
    let us3 =
      modify me (push_text recipient_name (record { sender_ = sender_you; content_ = txt })) us2 in
    modify recipient_name
      (push_text sender_name (record { sender_ = sender_other; content_ = txt })) us3

-- `users_.at(name)`
unfoldable pub user_at : Str → Database → Outcome User
user_at name db = elim (lookup name db.users_) [ none ↦ halt out_of_range | some u ↦ done u ]

unfoldable pub send_txt : ThreadId → Str → Str → Database → Outcome (Status × Database)
send_txt t recipient_name txt db = elim (lookup t db.threads_) [
  | none ↦ done (Status.error, db)
  | some me ↦ do
    sender ← user_at me db
    elim (lookup recipient_name db.users_) [
      | none ↦ done (Status.error, db)
      | some recipient ↦ done (
        Status.ok,
        record db { users_ = exchange me sender.username_ recipient_name txt db.users_ },
      )
    ]
]

-- `c` is the chat that the caller passes in.
unfoldable pub recv_txt : ThreadId → Str → Chat → Database → Outcome (Status × Chat)
recv_txt t sender_name c db = elim (lookup t db.threads_) [
  | none ↦ done (Status.error, c)
  | some me ↦ do
    recipient ← user_at me db
    if not (is_some (lookup sender_name db.users_))
        then done (Status.error, c)
        else elim (lookup sender_name recipient.chats_) [
          | none ↦ done (Status.ok, record { texts_ = [] })
          | some stored ↦ done (Status.ok, stored)
        ]
]

-- `order` is the order in which the `unordered_map` happens to be walked.
unfoldable pub get_correspondents :
    (List Str → List Str) → ThreadId → List Str → Database → Outcome (Status × List Str)
get_correspondents order t usernames db = elim (lookup t db.threads_) [
  | none ↦ done (Status.error, usernames)
  | some me ↦ do u ← user_at me db; done (Status.ok, order (keys u.chats_))
]

-- `correspondent.chats_.erase(username);`
unfoldable pub erase_chat : Str → User → User
erase_chat name u = record u { chats_ = erase name u.chats_ }

-- The loop of `delete_user` over the user's chats. Where the correspondent is the user himself, the
-- loop erases the entry it stands on, and its next step goes on from the erased entry.
unfoldable pub erase_chats : Str → List Str → List (Str × User) → Outcome (List (Str × User))
erase_chats me [] us = done us
erase_chats me (c ∷ cs) us =
    let rest = erase_chats me cs (modify c (erase_chat me) us) in
    elim (lookup c us) [
      | none ↦ halt out_of_range
      | some correspondent ↦ if str_eq c me then halt dangling_iterator else rest
    ]

unfoldable pub delete_user :
    (List Str → List Str) → ThreadId → Database → Outcome (Status × Database)
delete_user order t db = elim (lookup t db.threads_) [
  | none ↦ done (Status.error, db)
  | some me ↦ do
    u ← user_at me db
    us ← erase_chats me (order (keys u.chats_)) db.users_
    done (Status.ok, record db { users_ = erase me us; threads_ = erase t db.threads_ })
]
