-- ===== src/Interface/State.antt =====
-- The members of `interface`, and what it calls of its client.
use chat.Common.{ℕ, Bool, List, Str, Status, Outcome}
use chat.Chat.{Chat}
use chat.Interface.Keypress.{Keypress}

-- `enum class screen_type`
pub data ScreenType : Type 0 where
  login_registration login login_fail : ScreenType
  registration registration_success registration_fail : ScreenType
  main_menu search_accounts search_accounts_success search_accounts_fail : ScreenType
  open_chats open_chats_success open_chats_fail new_chat : ScreenType
  recv_txt recv_txt_fail send_txt send_txt_fail : ScreenType
  delete_account delete_account_success delete_account_fail exit : ScreenType

-- The methods of `client`, over whatever a connection is. A method is given its out-parameters as they
-- are, and returns a status, the out-parameters and the connection, also where the status is not OK.
pub record ClientCalls (S : Type 0) : Type 0 where
  pub connect_server : ℕ → S → Outcome (Status × S)
  pub login : Str → Str → ℕ → S → Outcome (Status × ℕ × S)
  pub registration : Str → Str → ℕ → S → Outcome (Status × ℕ × S)
  pub logout : ℕ → S → Outcome (Status × ℕ × S)
  pub list_accounts : Str → ℕ → List Str → S → Outcome (Status × ℕ × List Str × S)
  pub send_txt : Str → Str → ℕ → S → Outcome (Status × ℕ × S)
  pub recv_txt : Str → ℕ → Chat → S → Outcome (Status × ℕ × Chat × S)
  pub recv_correspondents : ℕ → List Str → S → Outcome (Status × ℕ × List Str × S)
  pub delete_account : ℕ → S → Outcome (Status × ℕ × S)

-- The members, what `read_keypress` will return in turn, and how often the listener thread of each
-- `send_txt` screen will ask for texts.
pub record Interface (S : Type 0) : Type 0 where
  pub next_ : ScreenType
  pub client_ : S
  pub stat_code_ : ℕ
  pub curr_chat_ : Chat
  pub username_ : Str
  pub password_ : Str
  pub pattern_ : Str
  pub matched_usernames_ : List Str
  pub all_correspondents_ : List Str
  pub correspondent_ : Str
  pub partial_txt_ : Str
  pub hit_escape_ : Bool
  pub keys : List Keypress
  pub polls : List ℕ
