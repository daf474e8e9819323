-- ===== src/Interface/Cases.antt =====
-- The cases of the `switch` in `interface::start`, and `interface::background_listener`.
use chat.Common.{
  ℕ, zero, suc, ◌-◌, ◌||◌, not, Bool, none, some, List, [], ◌∷◌, drop, get_elem?, nat_eq,
  if◌then◌else◌, Status, Outcome, done, halt, out_of_bounds, ◌>>=◌,
}
use chat.Protocol.Header.{StatusCode, status_code}
use chat.Interface.Selection.{escape_choice}
use chat.Interface.State.{ScreenType, ClientCalls, Interface}
use chat.Interface.Screens

-- What a round of the loop does: it goes on, or `start` returns.
pub data Next (S : Type 0) : Type 0 where
  again : Interface S → Next S
  returns : Status → Interface S → Next S

abbrev pub is_ok_code : ℕ → Bool
is_ok_code c = nat_eq c (status_code StatusCode.ok)

-- Of a listener that no number is given for, no round takes place.
abbrev pub next_polls : List ℕ → ℕ
next_polls [] = 0
next_polls (n ∷ ns) = n

module _ {S : Type 0} where
  abbrev pub goto : ScreenType → Interface S → Outcome (Next S)
  goto s i = done (again (record i { next_ = s }))

  -- `if (s != status::ok) return s;`
  abbrev pub check : Status → Interface S → Outcome (Next S) → Outcome (Next S)
  check Status.ok i k = k
  check s i k = done (returns s i)

  -- What a call that fills in a status code leaves behind.
  abbrev pub after_call : ℕ → S → Interface S → Interface S
  after_call stat_code c i = record i { stat_code_ = stat_code; client_ = c }

  module _ (o : ClientCalls S) where
    unfoldable pub show_login_registration : Interface S → Outcome (Next S)
    show_login_registration i = do
      r ← Screens.login_registration i
      if nat_eq r.0 0
          then goto ScreenType.login r.1
          else if nat_eq r.0 1
          then goto ScreenType.registration r.1
          else if nat_eq r.0 2 || nat_eq r.0 escape_choice
          then goto ScreenType.exit r.1
          else done (again r.1)

    -- The call of `client_.login`, which two screens make.
    unfoldable pub log_in : Interface S → Outcome (Next S)
    log_in i = do
      r ← o.login i.username_ i.password_ i.stat_code_ i.client_
      check r.0 (after_call r.1 r.2 i) (
          goto (if is_ok_code r.1 then ScreenType.main_menu else ScreenType.login_fail)
            (after_call r.1 r.2 i))

    unfoldable pub show_login : Interface S → Outcome (Next S)
    unfolding log_in
    show_login i = do
      i1 ← Screens.login i
      if i1.hit_escape_ then goto ScreenType.login_registration i1 else log_in i1

    unfoldable pub show_login_fail : Interface S → Outcome (Next S)
    show_login_fail i = do
      r ← Screens.login_fail i
      if nat_eq r.0 0
          then goto ScreenType.login r.1
          else if nat_eq r.0 1 || nat_eq r.0 escape_choice
          then goto ScreenType.login_registration r.1
          else done (again r.1)

    unfoldable pub register : Interface S → Outcome (Next S)
    register i = do
      r ← o.registration i.username_ i.password_ i.stat_code_ i.client_
      check r.0 (after_call r.1 r.2 i) (
          goto
            (if is_ok_code r.1
              then ScreenType.registration_success
              else ScreenType.registration_fail)
            (after_call r.1 r.2 i))

    unfoldable pub show_registration : Interface S → Outcome (Next S)
    unfolding register
    show_registration i = do
      i1 ← Screens.registration i
      if i1.hit_escape_ then goto ScreenType.login_registration i1 else register i1

    unfoldable pub show_registration_fail : Interface S → Outcome (Next S)
    show_registration_fail i = do
      r ← Screens.registration_fail i
      if nat_eq r.0 0
          then goto ScreenType.registration r.1
          else if nat_eq r.0 1 || nat_eq r.0 escape_choice
          then goto ScreenType.login_registration r.1
          else done (again r.1)

    -- A logout that the server refuses leaves the user at the main menu.
    unfoldable pub log_out : Interface S → Outcome (Next S)
    log_out i = do
      r ← o.logout i.stat_code_ i.client_
      check r.0 (after_call r.1 r.2 i) (
          if is_ok_code r.1
          then goto ScreenType.login_registration (after_call r.1 r.2 i)
          else done (again (after_call r.1 r.2 i)))

    unfoldable pub show_main_menu : Interface S → Outcome (Next S)
    unfolding log_out
    show_main_menu i = do
      r ← Screens.main_menu i
      if nat_eq r.0 0
          then goto ScreenType.open_chats r.1
          else if nat_eq r.0 1
          then goto ScreenType.search_accounts r.1
          else if nat_eq r.0 2
          then goto ScreenType.delete_account r.1
          else if nat_eq r.0 3 || nat_eq r.0 escape_choice
          then log_out r.1
          else done (again r.1)

    unfoldable pub show_open_chats : Interface S → Outcome (Next S)
    show_open_chats i = do
      r ← o.recv_correspondents i.stat_code_ i.all_correspondents_ i.client_
      let i1 = record i { stat_code_ = r.1; all_correspondents_ = r.2; client_ = r.3 }
      check r.0 i1 (
          goto
            (if is_ok_code r.1 then ScreenType.open_chats_success else ScreenType.open_chats_fail)
            i1)

    -- `all_correspondents_[choice - 2]`
    unfoldable pub pick_chat : ℕ → Interface S → Outcome (Next S)
    pick_chat choice i = elim (get_elem? i.all_correspondents_ (choice - 2)) [
      | none ↦ halt out_of_bounds
      | some name ↦ goto ScreenType.recv_txt (record i { correspondent_ = name })
    ]

    unfoldable pub show_open_chats_success : Interface S → Outcome (Next S)
    unfolding pick_chat
    show_open_chats_success i = do
      r ← Screens.open_chats_success i
      if nat_eq r.0 0
          then goto ScreenType.new_chat r.1
          else if nat_eq r.0 1 || nat_eq r.0 escape_choice
          then goto ScreenType.main_menu r.1
          else pick_chat r.0 r.1

    unfoldable pub show_new_chat : Interface S → Outcome (Next S)
    show_new_chat i = do
      i1 ← Screens.new_chat i
      if i1.hit_escape_ then goto ScreenType.open_chats i1 else goto ScreenType.recv_txt i1

    unfoldable pub fetch_texts : Interface S → Outcome (Status × Interface S)
    fetch_texts i = do
      r ← o.recv_txt i.correspondent_ i.stat_code_ i.curr_chat_ i.client_
      done (r.0, record i { stat_code_ = r.1; curr_chat_ = r.2; client_ = r.3 })

    unfoldable pub show_recv_txt : Interface S → Outcome (Next S)
    unfolding fetch_texts
    show_recv_txt i = do
      r ← fetch_texts i
      check r.0 r.1 (
          goto (if is_ok_code r.1.stat_code_ then ScreenType.send_txt else ScreenType.recv_txt_fail)
            r.1)

    -- `n` rounds of the listener, whose status is ignored. While it runs, the thread of the interface
    -- only types: it uses neither the client nor what the listener writes.
    unfoldable pub background_listener : ℕ → Interface S → Outcome (Interface S)
    unfolding fetch_texts
    background_listener zero i = done i
    background_listener (suc n) i = do r ← fetch_texts i; background_listener n r.1

    -- The text is sent, and the texts of the chat are asked for anew.
    unfoldable pub send_typed : Interface S → Outcome (Next S)
    unfolding fetch_texts
    send_typed i = do
      r ← o.send_txt i.correspondent_ i.partial_txt_ i.stat_code_ i.client_
      let i1 = after_call r.1 r.2 i
      check r.0 i1 (
          if not (is_ok_code r.1) then goto ScreenType.send_txt_fail i1 else (do
            f ← fetch_texts i1
            check f.0 f.1 (
                if not (is_ok_code f.1.stat_code_)
                then goto ScreenType.recv_txt_fail f.1
                else done (again f.1))))

    unfoldable pub show_send_txt : Interface S → Outcome (Next S)
    unfolding send_typed background_listener
    show_send_txt i = do
      let i0 = record i { partial_txt_ = []; polls = drop 1 i.polls }
      i1 ← background_listener (next_polls i.polls) i0
      i2 ← Screens.type_text i1
      if i2.hit_escape_ then goto ScreenType.open_chats i2 else send_typed i2

    unfoldable pub search : Interface S → Outcome (Next S)
    search i = do
      r ← o.list_accounts i.pattern_ i.stat_code_ i.matched_usernames_ i.client_
      let i1 = record i { stat_code_ = r.1; matched_usernames_ = r.2; client_ = r.3 }
      check r.0 i1 (
          goto
            (if is_ok_code r.1
              then ScreenType.search_accounts_success
              else ScreenType.search_accounts_fail)
            i1)

    unfoldable pub show_search_accounts : Interface S → Outcome (Next S)
    unfolding search
    show_search_accounts i = do
      i1 ← Screens.search_accounts i
      if i1.hit_escape_ then goto ScreenType.main_menu i1 else search i1

    unfoldable pub delete : Interface S → Outcome (Next S)
    delete i = do
      r ← o.delete_account i.stat_code_ i.client_
      check r.0 (after_call r.1 r.2 i) (
          goto
            (if is_ok_code r.1
              then ScreenType.delete_account_success
              else ScreenType.delete_account_fail)
            (after_call r.1 r.2 i))

    unfoldable pub show_delete_account : Interface S → Outcome (Next S)
    unfolding delete
    show_delete_account i = do
      r ← Screens.delete_account i
      if nat_eq r.0 0 || nat_eq r.0 escape_choice
          then goto ScreenType.main_menu r.1
          else if nat_eq r.0 1
          then delete r.1
          else done (again r.1)

    -- A screen that waits for any key, and what comes behind it.
    unfoldable pub show_notice : ScreenType → Interface S → Outcome (Next S)
    show_notice behind i = do i1 ← Screens.notice i; goto behind i1
