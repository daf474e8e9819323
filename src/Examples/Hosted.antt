-- ===== src/Examples/Hosted.antt =====
-- The interface in front of a server that answers each request with what it promises: what a user can
-- reach from the keyboard.
use chat.Common.{
  ℕ, ◌≡◌, refl, false, List, [], ◌∷◌, ◌++◌, Status, Outcome, done, halt, dangling_iterator, ◌>>=◌,
}
use chat.Protocol.Requests.{Request}
use chat.Protocol.Responses.{Response}
use chat.Database.{Database, ThreadId, empty}
use chat.Server.Service.{respond}
use chat.Interface.Keypress.{Keypress, regular, escape, enter, downarrow}
use chat.Interface.State.{ScreenType, ClientCalls, Interface}
use chat.Interface.Start.{run, start}
use chat.Common.{lookup, insert, modify, erase, contains, str_eq, str_lt}
use chat.Database
use chat.Server.{has_star_or_space, username_refused, password_refused}
use chat.Interface.Selection.{make_selection, select, move_down}
use chat.Interface.Line.{get_user_string, read_string, get_user_txt}
use chat.Interface.Screens
use chat.Interface.Cases.{
  show_login_registration, register, show_registration, log_in, show_main_menu, show_open_chats,
  show_open_chats_success, show_new_chat, fetch_texts, show_recv_txt, background_listener,
  send_typed, show_send_txt, delete, show_delete_account, pick_chat,
}
use chat.Interface.Start.{show}
use chat.Interface.Cases.{again, show_login}
use chat.Interface.Start.Session.{
  first, round, IsServed, LeftByExit, start-LeftByExit, visits-IsServed,
}
use chat.Interface.Start.Served.{code_of, names_of, chat_of, served, LoggedIn, served-Guarded}
use chat.Examples.Accounts.{as_stored, bobby, secret, registered_both}

-- A client that passes the server's faults on.
module _ (t : ThreadId) where
  abbrev ask : Request → Database → Outcome (Response × Database)
  ask q db = respond as_stored t q db

  abbrev code : Request → Database → Outcome (Status × ℕ × Database)
  code q db = do r ← ask q db; done (Status.ok, code_of r.0, r.1)

  abbrev in_process : ClientCalls Database
  in_process = record {
    connect_server = λ n db. done (Status.ok, db);
    login = λ u p n db. code (Request.login u p) db;
    registration = λ u p n db. code (Request.registration u p) db;
    logout = λ n db. code Request.logout db;
    list_accounts = λ p n us db.
        ask (Request.accounts p) db >>= λ r. done (Status.ok, code_of r.0, names_of r.0 us, r.1);
    send_txt = λ u txt n db. code (Request.send_txt u txt) db;
    recv_txt = λ u n c db.
        ask (Request.recv_txt u) db >>= λ r. done (Status.ok, code_of r.0, chat_of r.0 c, r.1);
    recv_correspondents = λ n us db.
        ask Request.correspondents db >>= λ r. done (Status.ok, code_of r.0, names_of r.0 us, r.1);
    delete_account = λ n db. code Request.delete db;
  }

abbrev nina : List Keypress
nina = regular b'n' ∷ regular b'i' ∷ regular b'n' ∷ regular b'a' ∷ []

-- A registration, a text to oneself, and the deletion of the account.
abbrev to_oneself : List Keypress
to_oneself =
    (downarrow ∷ enter ∷ nina)
    ++ ((enter ∷ nina)
        ++ ((enter ∷ enter ∷ enter ∷ nina)
            ++ (enter
                ∷ regular b'h'
                ∷ enter
                ∷ escape
                ∷ escape
                ∷ downarrow
                ∷ downarrow
                ∷ enter
                ∷ downarrow
                ∷ enter
                ∷ [])))

abbrev fresh : List Keypress → Interface Database
fresh ks = record {
  next_ = ScreenType.login_registration;
  client_ = empty;
  stat_code_ = 0;
  curr_chat_ = record { texts_ = [] };
  username_ = [];
  password_ = [];
  pattern_ = [];
  matched_usernames_ = [];
  all_correspondents_ = [];
  correspondent_ = [];
  partial_txt_ = [];
  hit_escape_ = false;
  keys = ks;
  polls = [];
}

-- The server ends in the loop that goes on from an erased element.
keyboard_fault : run (in_process 1) 60 (fresh to_oneself) ≡ halt dangling_iterator
unfolding run show show_login_registration register show_registration log_in show_main_menu
    show_open_chats show_open_chats_success show_new_chat fetch_texts show_recv_txt
    background_listener send_typed show_send_txt delete show_delete_account pick_chat Screens.menu
    Screens.login_registration Screens.registration Screens.ask_username Screens.ask_password
    Screens.main_menu Screens.open_chats_success Screens.new_chat Screens.type_text
    Screens.delete_account make_selection select move_down get_user_string read_string get_user_txt
    has_star_or_space username_refused password_refused respond Database.login Database.registration
    Database.is_logged_in Database.send_txt Database.recv_txt Database.get_correspondents
    Database.delete_user Database.exchange Database.ensure_chat Database.push_text Database.user_at
    Database.erase_chat Database.erase_chats lookup insert modify erase contains str_eq str_lt
keyboard_fault = refl

-- Enter at "Login", the name and the password of bob, and ESC twice, for a server that knows him.
abbrev typed_login : List Keypress
typed_login =
    regular b'b'
    ∷ regular b'o'
    ∷ regular b'b'
    ∷ regular b'b'
    ∷ regular b'y'
    ∷ enter
    ∷ regular b'1'
    ∷ regular b'2'
    ∷ regular b'3'
    ∷ regular b'4'
    ∷ enter
    ∷ escape
    ∷ escape
    ∷ []

abbrev bob_types : List Keypress → Interface Database
bob_types ks = record (fresh ks) { client_ = registered_both }

start-LeftByExit_example :
    LeftByExit
      (served as_stored 1)
      (LoggedIn as_stored 1)
      (served-Guarded as_stored 1)
      (start (served as_stored 1) 0 (bob_types (enter ∷ typed_login)))
start-LeftByExit_example =
    start-LeftByExit (served as_stored 1) (LoggedIn as_stored 1) (served-Guarded as_stored 1) 0
      (bob_types (enter ∷ typed_login))

abbrev on_login : Interface Database
on_login = record (bob_types typed_login) { next_ = ScreenType.login }

abbrev on_menu : Interface Database
on_menu = record (bob_types (escape ∷ escape ∷ [])) {
  next_ = ScreenType.main_menu;
  client_ = (Database.login 1 bobby secret registered_both).1;
  username_ = bobby;
  password_ = secret;
}

login_chosen :
    show (served as_stored 1) ScreenType.login_registration (bob_types (enter ∷ typed_login))
    ≡ done (again on_login)
unfolding show show_login_registration Screens.login_registration Screens.menu make_selection select
login_chosen = refl

logged_in : show (served as_stored 1) ScreenType.login on_login ≡ done (again on_menu)
unfolding show show_login Screens.login get_user_string read_string Screens.ask_password log_in
    respond Database.login Database.is_logged_in registered_both Database.registration lookup insert
    contains str_eq str_lt
logged_in = refl

visits-IsServed_example :
    IsServed (served as_stored 1) (LoggedIn as_stored 1) (served-Guarded as_stored 1) on_menu
visits-IsServed_example =
    visits-IsServed (served as_stored 1) (LoggedIn as_stored 1) (served-Guarded as_stored 1)
      (bob_types (enter ∷ typed_login)) on_menu refl (round (round first login_chosen) logged_in)
