-- ===== src/Examples/Screens.antt =====
-- A user at the keyboard, and a client whose server accepts everything.
use chat.Common.{
  ℕ, ◌<◌, ◌≡◌, ◌⊎◌, refl, Bool, true, false, List, [], ◌∷◌, ◌++◌, arith, Status, done, Within,
}
use chat.Server.{has_star_or_space}
use chat.Interface.Keypress.{Keypress, regular, escape, enter, uparrow, downarrow}
use chat.Interface.Keypress.Typing.{typed_all, keypresses, keypresses-typed_all}
use chat.Interface.Selection.{escape_choice, make_selection, select, move_up}
use chat.Interface.Selection.Reach.{make_selection-lt, make_selection-downs}
use chat.Interface.State.{ScreenType, ClientCalls, Interface}
use chat.Interface.Screens
use chat.Interface.Screens.{ask_username, ask_password}
use chat.Interface.Screens.Names.{IsAccepted, ask_username-escape, registration-IsAccepted}
use chat.Examples.Accounts.{bobby}

-- The connection is whether it is logged in.
abbrev accepting : ClientCalls Bool
accepting = record {
  connect_server = λ n c. done (Status.ok, c);
  login = λ u p n c. done (Status.ok, 0, true);
  registration = λ u p n c. done (Status.ok, 0, c);
  logout = λ n c. done (Status.ok, 0, false);
  list_accounts = λ p n us c. done (Status.ok, 0, us, c);
  send_txt = λ u t n c. done (Status.ok, 0, c);
  recv_txt = λ u n h c. done (Status.ok, 0, h, c);
  recv_correspondents = λ n us c. done (Status.ok, 0, bobby ∷ [], c);
  delete_account = λ n c. done (Status.ok, 0, false);
}

abbrev at_entry : List Keypress → Interface Bool
at_entry ks = record {
  next_ = ScreenType.login_registration;
  client_ = false;
  stat_code_ = 0;
  curr_chat_ = record { texts_ = [] };
  username_ = [];
  password_ = [];
  pattern_ = [];
  matched_usernames_ = [];
  all_correspondents_ = [];
  correspondent_ = [];
  partial_txt_ = [];
  hit_escape_ = false;
  keys = ks;
  polls = [];
}

abbrev letters : List Keypress
letters = regular b'n' ∷ regular b'i' ∷ regular b'n' ∷ regular b'a' ∷ []

-- In a chat, whose listener asks for texts twice.
abbrev pub in_chat : Interface Bool
in_chat = record (at_entry (escape ∷ [])) {
  next_ = ScreenType.send_txt;
  client_ = true;
  polls = 2 ∷ [];
}

registration-IsAccepted_example :
    Within IsAccepted
      (Screens.registration (at_entry (letters ++ (enter ∷ (letters ++ (enter ∷ []))))))
registration-IsAccepted_example =
    registration-IsAccepted (at_entry (letters ++ (enter ∷ (letters ++ (enter ∷ [])))))

-- A star, and ESC: the loop asks for another name.
ask_username-escape_example :
    ask_username 2 ((regular b'*' ∷ []) ++ (escape ∷ (letters ++ (enter ∷ []))))
    ≡ ask_username 1 (letters ++ (enter ∷ []))
unfolding has_star_or_space
ask_username-escape_example =
    ask_username-escape 1 (regular b'*' ∷ []) (letters ++ (enter ∷ [])) (tt, tt) refl

-- Up from the first of three choices leads to the last one.
wrapped : make_selection 3 (uparrow ∷ enter ∷ []) ≡ done (2, [])
unfolding make_selection select move_up
wrapped = refl

make_selection-lt_example : (2 < 3) ⊎ ◌≡◌ {A = ℕ} 2 escape_choice
make_selection-lt_example =
    make_selection-lt 3 (omega arith) (omega arith) (uparrow ∷ enter ∷ []) [] 2 wrapped

make_selection-downs_example : make_selection 3 (downarrow ∷ downarrow ∷ enter ∷ []) ≡ done (2, [])
make_selection-downs_example = make_selection-downs 3 (omega arith) (omega arith) 2 [] (omega arith)

-- The letter is there already when the arrow is read.
abbrev three_keys : List (Keypress × Bool)
three_keys = (uparrow, true) ∷ (regular b'a', true) ∷ (escape, false) ∷ []

keypresses-typed_all_example :
    keypresses 3 127 (typed_all 127 three_keys) ≡ uparrow ∷ regular b'a' ∷ escape ∷ []
keypresses-typed_all_example =
    keypresses-typed_all three_keys (tt, ((omega arith, omega arith), (tt, tt)))
