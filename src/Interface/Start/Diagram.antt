-- ===== src/Interface/Start/Diagram.antt =====
-- Which screen can follow which, and what the client promises the screens.
use chat.Common.{ℕ, ◌+◌, ◌*◌, ◌≡◌, ◌<◌, ◌^◌, true, false, List, length, Str, Status, Within}
use chat.Chat.{Chat}
use chat.Interface.Keypress.{Keypress}
use chat.Interface.State.{ScreenType, ClientCalls}
use chat.Interface.State.ScreenType.{
  login_registration, login, login_fail, registration, registration_success, registration_fail,
  main_menu, search_accounts, search_accounts_success, search_accounts_fail, open_chats,
  open_chats_success, open_chats_fail, new_chat, recv_txt, recv_txt_fail, send_txt, send_txt_fail,
  delete_account, delete_account_success, delete_account_fail, exit,
}
use chat.Interface.Cases.{is_ok_code}

infix 4 ◌⟶◌
-- The arrows of the diagram.
pub data ◌⟶◌ : ScreenType → ScreenType → Type 0 where
  asks_login : login_registration ⟶ login
  asks_registration : login_registration ⟶ registration
  leaves : login_registration ⟶ exit
  logs_in : login ⟶ main_menu
  login_refused : login ⟶ login_fail
  login_escaped : login ⟶ login_registration
  login_again : login_fail ⟶ login
  login_given_up : login_fail ⟶ login_registration
  registers : registration ⟶ registration_success
  registration_refused : registration ⟶ registration_fail
  registration_escaped : registration ⟶ login_registration
  registration_again : registration_fail ⟶ registration
  registration_given_up : registration_fail ⟶ login_registration
  first_login : registration_success ⟶ main_menu
  first_login_refused : registration_success ⟶ login_fail
  asks_chats : main_menu ⟶ open_chats
  asks_search : main_menu ⟶ search_accounts
  asks_deletion : main_menu ⟶ delete_account
  logs_out : main_menu ⟶ login_registration
  logout_refused : main_menu ⟶ main_menu
  chats_listed : open_chats ⟶ open_chats_success
  chats_refused : open_chats ⟶ open_chats_fail
  chats_noticed : open_chats_fail ⟶ main_menu
  asks_new_chat : open_chats_success ⟶ new_chat
  chats_left : open_chats_success ⟶ main_menu
  chat_picked : open_chats_success ⟶ recv_txt
  new_chat_escaped : new_chat ⟶ open_chats
  new_chat_named : new_chat ⟶ recv_txt
  texts_received : recv_txt ⟶ send_txt
  texts_refused : recv_txt ⟶ recv_txt_fail
  texts_noticed : recv_txt_fail ⟶ open_chats
  text_escaped : send_txt ⟶ open_chats
  text_sent : send_txt ⟶ send_txt
  text_refused : send_txt ⟶ send_txt_fail
  answer_refused : send_txt ⟶ recv_txt_fail
  refusal_noticed : send_txt_fail ⟶ open_chats
  search_escaped : search_accounts ⟶ main_menu
  search_answered : search_accounts ⟶ search_accounts_success
  search_refused : search_accounts ⟶ search_accounts_fail
  answer_noticed : search_accounts_success ⟶ search_accounts
  search_noticed : search_accounts_fail ⟶ main_menu
  deletion_declined : delete_account ⟶ main_menu
  deleted : delete_account ⟶ delete_account_success
  deletion_refused : delete_account ⟶ delete_account_fail
  deletion_noticed : delete_account_success ⟶ login_registration
  failure_noticed : delete_account_fail ⟶ main_menu

-- The screens that take no key.
abbrev pub unkeyed : ScreenType → ℕ
unkeyed registration_success = 1
unkeyed open_chats = 1
unkeyed recv_txt = 1
unkeyed s = 0

-- What each round makes smaller.
abbrev pub left_over : ScreenType → List Keypress → ℕ
left_over s ks = 2 * length ks + unkeyed s

module _ {S : Type 0} (In : S → Type 0) where
  -- What a screen needs of `all_correspondents_` and of the connection: that the server has the connection logged in, for all screens but those in
  -- front of the login and behind the deletion; and that the menu of the chats has fewer than 2 ^ 32
  -- choices.
  abbrev pub Requires : ScreenType → List Str → S → Type 0
  Requires login_registration us c = Unit {0}
  Requires login us c = Unit {0}
  Requires login_fail us c = Unit {0}
  Requires registration us c = Unit {0}
  Requires registration_success us c = Unit {0}
  Requires registration_fail us c = Unit {0}
  Requires delete_account_success us c = Unit {0}
  Requires exit us c = Unit {0}
  Requires open_chats_success us c = In c × (2 + length us < 2 ^ 32)
  Requires s us c = In c

  -- What the client promises, if `In` says which connections are logged in: a call halts only to wait;
  -- a login that the server accepts logs in; a connection that is logged in stays so, until the server
  -- accepts a logout or a deletion; and the chats listed are fewer than 2 ^ 32 - 2, as those of a response
  -- are, whose length has 32 bits.
  pub record Guarded (o : ClientCalls S) : Type 0 where
    pub connect_server_returns :
        (n : ℕ) (c : S) → Within (λ (r : Status × S). Unit {0}) (o.connect_server n c)
    pub login_In :
        (u p : Str) (n : ℕ) (c : S)
        → Within
            (λ (r : Status × ℕ × S). r.0 ≡ Status.ok → is_ok_code r.1 ≡ true → In r.2)
            (o.login u p n c)
    pub registration_returns :
        (u p : Str) (n : ℕ) (c : S)
        → Within (λ (r : Status × ℕ × S). Unit {0}) (o.registration u p n c)
    pub logout_In :
        (n : ℕ) (c : S)
        → In c
        → Within (λ (r : Status × ℕ × S). is_ok_code r.1 ≡ false → In r.2) (o.logout n c)
    pub list_accounts_In :
        (p : Str) (n : ℕ) (us : List Str) (c : S)
        → In c
        → Within (λ (r : Status × ℕ × List Str × S). In r.3) (o.list_accounts p n us c)
    pub send_txt_In :
        (u t : Str) (n : ℕ) (c : S)
        → In c
        → Within (λ (r : Status × ℕ × S). In r.2) (o.send_txt u t n c)
    pub recv_txt_In :
        (u : Str) (n : ℕ) (h : Chat) (c : S)
        → In c
        → Within (λ (r : Status × ℕ × Chat × S). In r.3) (o.recv_txt u n h c)
    pub recv_correspondents_In :
        (n : ℕ) (us : List Str) (c : S)
        → In c
        → Within
            (λ (r : Status × ℕ × List Str × S).
              In r.3 × (r.0 ≡ Status.ok → is_ok_code r.1 ≡ true → 2 + length r.2 < 2 ^ 32))
            (o.recv_correspondents n us c)
    pub delete_account_In :
        (n : ℕ) (c : S)
        → In c
        → Within (λ (r : Status × ℕ × S). is_ok_code r.1 ≡ false → In r.2) (o.delete_account n c)
