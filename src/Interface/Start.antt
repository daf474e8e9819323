-- ===== src/Interface/Start.antt =====
-- `interface::start`: the screens one after another.
pub mod Diagram
pub mod Rounds
pub mod Session
pub mod Served
use chat.Common.{
  ℕ, zero, suc, ◌+◌, ◌-◌, ◌*◌, ◌||◌, not, Bool, true, false, Option, none, some, List, [], ◌∷◌,
  length, drop, get_elem?, nat_eq, if◌then◌else◌, Str, Status, Outcome, done, halt, out_of_fuel,
  out_of_bounds, ◌>>=◌,
}
use chat.Protocol.Header.{StatusCode, status_code}
use chat.Interface.Selection.{escape_choice}
use chat.Interface.State.{ScreenType, ClientCalls, Interface}
use chat.Interface.Screens
use chat.Interface.Cases.{
  Next, again, log_in, returns, show_delete_account, show_login, show_login_fail,
  show_login_registration, show_main_menu, show_new_chat, show_notice, show_open_chats,
  show_open_chats_success, show_recv_txt, show_registration, show_registration_fail,
  show_search_accounts, show_send_txt,
}

module _ {S : Type 0} (o : ClientCalls S) where
  -- The `switch`.
  unfoldable pub show : ScreenType → Interface S → Outcome (Next S)
  show ScreenType.login_registration i = show_login_registration o i
  show ScreenType.login i = show_login o i
  show ScreenType.login_fail i = show_login_fail o i
  show ScreenType.registration i = show_registration o i
  show ScreenType.registration_success i = log_in o i
  show ScreenType.registration_fail i = show_registration_fail o i
  show ScreenType.main_menu i = show_main_menu o i
  show ScreenType.open_chats i = show_open_chats o i
  show ScreenType.open_chats_success i = show_open_chats_success o i
  show ScreenType.open_chats_fail i = show_notice o ScreenType.main_menu i
  show ScreenType.new_chat i = show_new_chat o i
  show ScreenType.recv_txt i = show_recv_txt o i
  show ScreenType.recv_txt_fail i = show_notice o ScreenType.open_chats i
  show ScreenType.send_txt i = show_send_txt o i
  show ScreenType.send_txt_fail i = show_notice o ScreenType.open_chats i
  show ScreenType.search_accounts i = show_search_accounts o i
  show ScreenType.search_accounts_success i = show_notice o ScreenType.search_accounts i
  show ScreenType.search_accounts_fail i = show_notice o ScreenType.main_menu i
  show ScreenType.delete_account i = show_delete_account o i
  show ScreenType.delete_account_success i = show_notice o ScreenType.login_registration i
  show ScreenType.delete_account_fail i = show_notice o ScreenType.main_menu i
  show ScreenType.exit i = done (returns Status.ok i)

  -- The `while` loop, one round on each unit of fuel.
  unfoldable pub run : ℕ → Interface S → Outcome (Status × Interface S)
  run zero i = halt out_of_fuel
  run (suc f) i = do
    n ← show i.next_ i
    elim n [ again i' ↦ run f i' | returns s i' ↦ done (s, i') ]

  -- Behind the call of `connect_server`. Of two rounds one takes a key at least.
  unfoldable pub connected : Status → Interface S → Outcome (Status × Interface S)
  unfolding run
  connected Status.ok i =
      run (2 * length i.keys + 1) (record i { next_ = ScreenType.login_registration })
  connected s i = done (s, i)

  unfoldable pub start : ℕ → Interface S → Outcome (Status × Interface S)
  unfolding connected
  start n_ip_addr i = do
    r ← o.connect_server n_ip_addr i.client_
    connected r.0 (record i { client_ = r.1 })
