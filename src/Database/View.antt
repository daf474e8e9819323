-- ===== src/Database/View.antt =====
-- What the database holds, as its clients can tell: which users exist, which chats they have, and
-- the texts of a chat.
use chat.Common.{
  ◌≡◌, Bool, true, false, Option, none, some, List, [], ◌∷◌, ◌++◌, arith, Str, str_eq, str_eq_iff,
  str_Key, if◌then◌else◌, lookup, unordered, is_some, lookup-insert, lookup-modify, lookup-erase,
}
use chat.Chat.{Text, Chat}
use chat.Database.{User, Database, ensure_chat, push_text, erase_chat}

abbrev pub texts_in : Option Chat → List Text
texts_in none = []
texts_in (some c) = c.texts_

-- The texts that `u` keeps under the name `x`, and whether there is a chat of that name.
unfoldable pub texts_of : User → Str → List Text
texts_of u x = texts_in (lookup x u.chats_)

unfoldable pub has : User → Str → Bool
has u x = is_some (lookup x u.chats_)

abbrev pub in_user {ℓ} : {A : Type ℓ} → A → (User → A) → Option User → A
in_user a f none = a
in_user a f (some u) = f u

abbrev pub user_exists : Str → Database → Bool
user_exists a db = is_some (lookup a db.users_)

-- Whether user `a` has a chat with `b`, and its texts.
abbrev pub has_chat : Str → Str → Database → Bool
has_chat a b db = in_user false (λ u. has u b) (lookup a db.users_)

abbrev pub chat_of : Str → Str → Database → List Text
chat_of a b db = in_user [] (λ u. texts_of u b) (lookup a db.users_)

module _ (n x : Str) (u : User) where
  pub texts_of-ensure_chat : texts_of (ensure_chat n u) x ≡ texts_of u x
  unfolding texts_of ensure_chat
  texts_of-ensure_chat =
      ground (arith, str_eq_iff n x, lookup-insert unordered n x (record { texts_ = [] }) u.chats_)

  pub has-ensure_chat : has (ensure_chat n u) x ≡ (if str_eq n x then true else has u x)
  unfolding has ensure_chat
  has-ensure_chat =
      ground (arith, str_eq_iff n x, lookup-insert unordered n x (record { texts_ = [] }) u.chats_)

  pub texts_of-push_text :
      (t : Text)
      → has u n ≡ true
      → texts_of (push_text n t u) x
        ≡ (if str_eq n x then texts_of u x ++ (t ∷ []) else texts_of u x)
  unfolding texts_of has push_text
  texts_of-push_text t h = ground (
    arith,
    str_eq_iff n x,
    lookup-modify n x (λ c. record { texts_ = c.texts_ ++ (t ∷ []) }) u.chats_,
  )

  pub has-push_text : (t : Text) → has (push_text n t u) x ≡ has u x
  unfolding has push_text
  has-push_text t = ground (
    arith,
    str_eq_iff n x,
    lookup-modify n x (λ c. record { texts_ = c.texts_ ++ (t ∷ []) }) u.chats_,
  )

  pub texts_of-erase_chat : texts_of (erase_chat n u) x ≡ (if str_eq n x then [] else texts_of u x)
  unfolding texts_of erase_chat
  texts_of-erase_chat = ground (arith, lookup-erase n x u.chats_)

  pub has-erase_chat : has (erase_chat n u) x ≡ (if str_eq n x then false else has u x)
  unfolding has erase_chat
  has-erase_chat = ground (arith, lookup-erase n x u.chats_)

pub texts_of-has : (u : User) (x : Str) → has u x ≡ false → texts_of u x ≡ []
unfolding has texts_of
texts_of-has u x h = ground arith
