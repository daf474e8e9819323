-- ===== src/Interface/Start/Rounds/Entry.antt =====
-- The screens in front of the login.
use chat.Common.{
  suc, ◌*◌, ◌<◌, refl, ◌∙◌, ◌||◌, length, arith, nat_eq, if◌then◌else◌, done, Within, Within-done,
  Within-bind, Within-cases, Within-map,
}
use chat.Interface.Selection.{escape_choice}
use chat.Interface.Line.{get_user_string}
use chat.Interface.Line.Editing.{get_user_string-IsLine}
use chat.Interface.State.{ScreenType, ClientCalls, Interface}
use chat.Interface.Screens
use chat.Interface.Screens.{ask_username, ask_password}
use chat.Interface.Screens.Names.{ask_username-IsName}
use chat.Interface.Cases.{
  is_ok_code, after_call, show_login_registration, log_in, show_login, show_login_fail, register,
  show_registration, show_registration_fail,
}
use chat.Interface.Start.Diagram.{
  ◌⟶◌, left_over, Guarded, asks_login, asks_registration, leaves, logs_in, login_refused,
  login_escaped, login_again, login_given_up, registers, registration_refused, registration_escaped,
  registration_again, registration_given_up, first_login, first_login_refused,
}
use chat.Interface.Start.Rounds.{Kept, menu-IsPick, Moves, goto-Moves, goto_if-Moves, check-Moves}

module _ {S : Type 0} where
  ask_password-Kept : (i : Interface S) → Within (Kept i) (ask_password i)
  unfolding ask_password
  ask_password-Kept i =
      Within-bind (get_user_string 4 60 i.keys) _ (get_user_string-IsLine 4 60 i.keys) λ r q.
        Within-done _
          (record { next_kept = refl; client_kept = refl; chats_kept = refl; key_taken = q.1 })

  -- A line, and the password behind it if the line was not left by ESC.
  ask_both-Kept :
      (i i1 : Interface S)
      → Kept i i1
      → Within (Kept i) (if i1.hit_escape_ then done i1 else ask_password i1)
  ask_both-Kept i i1 k =
      Within-cases i1.hit_escape_ (done i1) (ask_password i1) (λ e. Within-done i1 k)
        λ e.
          Within-map
            (λ i2 l. record {
              next_kept = l.next_kept ∙ k.next_kept;
              client_kept = l.client_kept ∙ k.client_kept;
              chats_kept = l.chats_kept ∙ k.chats_kept;
              key_taken = omega (arith, l.key_taken, k.key_taken);
            })
            (ask_password-Kept i1)

  login-Kept : (i : Interface S) → Within (Kept i) (Screens.login i)
  unfolding Screens.login
  login-Kept i =
      Within-bind (get_user_string 4 40 i.keys) _ (get_user_string-IsLine 4 40 i.keys) λ r q.
        ask_both-Kept i (record i { username_ = r.0; hit_escape_ = r.1; keys = r.2 })
          (record { next_kept = refl; client_kept = refl; chats_kept = refl; key_taken = q.1 })

  registration-Kept : (i : Interface S) → Within (Kept i) (Screens.registration i)
  unfolding Screens.registration
  registration-Kept i =
      Within-bind (ask_username (suc (length i.keys)) i.keys) _
        (ask_username-IsName (suc (length i.keys)) i.keys (omega arith))
        λ r q.
          ask_both-Kept i (record i { username_ = r.0; hit_escape_ = r.1; keys = r.2 })
            (record { next_kept = refl; client_kept = refl; chats_kept = refl; key_taken = q.2 })

  module _ (o : ClientCalls S) (In : S → Type 0) (g : Guarded In o) where
    pub show_login_registration-Moves :
        (i : Interface S)
        → Within (Moves In ScreenType.login_registration i) (show_login_registration o i)
    unfolding show_login_registration Screens.login_registration
    show_login_registration-Moves i =
        let s = ScreenType.login_registration in
        Within-bind (Screens.menu 3 i) _ (menu-IsPick 3 i (omega arith) (omega arith)) λ r q.
          Within-cases (nat_eq r.0 0) _ _
            (λ e. goto-Moves In s i _ r.1 asks_login tt (omega (arith, q.kept.key_taken)))
            λ e.
              Within-cases (nat_eq r.0 1) _ _
                (λ e1.
                  goto-Moves In s i _ r.1 asks_registration tt (omega (arith, q.kept.key_taken)))
                λ e1.
                  Within-cases (nat_eq r.0 2 || nat_eq r.0 escape_choice) _ _
                    (λ e2. goto-Moves In s i _ r.1 leaves tt (omega (arith, q.kept.key_taken)))
                    λ e2. absurd (ground (arith, q.choice))

    -- The call of the login, from either screen that makes it.
    log_in-Moves :
        (s : ScreenType) (i i' : Interface S)
        → (s ⟶ ScreenType.main_menu)
        → (s ⟶ ScreenType.login_fail)
        → 2 * length i'.keys < left_over s i.keys
        → Within (Moves In s i) (log_in o i')
    unfolding log_in
    log_in-Moves s i i' a b l =
        Within-bind (o.login i'.username_ i'.password_ i'.stat_code_ i'.client_) _
          (g.login_In i'.username_ i'.password_ i'.stat_code_ i'.client_)
          λ r q. check-Moves In s i r.0 _ _ λ ok.
            goto_if-Moves In s i (is_ok_code r.1) _ _ (after_call r.1 r.2 i') a b (q ok) (λ e. tt)
              (omega arith) (omega arith)

    pub show_login-Moves : (i : Interface S) → Within (Moves In ScreenType.login i) (show_login o i)
    unfolding show_login
    show_login-Moves i = Within-bind (Screens.login i) _ (login-Kept i) λ i1 k.
        Within-cases i1.hit_escape_ _ _
          (λ e. goto-Moves In ScreenType.login i _ i1 login_escaped tt (omega (arith, k.key_taken)))
          λ e. log_in-Moves ScreenType.login i i1 logs_in login_refused (omega (arith, k.key_taken))

    pub show_registration_success-Moves :
        (i : Interface S) → Within (Moves In ScreenType.registration_success i) (log_in o i)
    show_registration_success-Moves i =
        log_in-Moves ScreenType.registration_success i i first_login first_login_refused
          (omega arith)

    pub show_registration-Moves :
        (i : Interface S) → Within (Moves In ScreenType.registration i) (show_registration o i)
    unfolding show_registration register
    show_registration-Moves i =
        let s = ScreenType.registration in
        Within-bind (Screens.registration i) _ (registration-Kept i) λ i1 k.
          Within-cases i1.hit_escape_ _ _
            (λ e. goto-Moves In s i _ i1 registration_escaped tt (omega (arith, k.key_taken)))
            λ e.
              Within-bind (o.registration i1.username_ i1.password_ i1.stat_code_ i1.client_) _
                (g.registration_returns i1.username_ i1.password_ i1.stat_code_ i1.client_)
                λ r q. check-Moves In s i r.0 _ _ λ ok.
                  goto_if-Moves In s i (is_ok_code r.1) _ _ (after_call r.1 r.2 i1) registers
                    registration_refused (λ e. tt) (λ e. tt) (omega (arith, k.key_taken))
                    (omega (arith, k.key_taken))

    pub show_login_fail-Moves :
        (i : Interface S) → Within (Moves In ScreenType.login_fail i) (show_login_fail o i)
    unfolding show_login_fail Screens.login_fail
    show_login_fail-Moves i =
        let s = ScreenType.login_fail in
        Within-bind (Screens.menu 2 i) _ (menu-IsPick 2 i (omega arith) (omega arith)) λ r q.
          Within-cases (nat_eq r.0 0) _ _
            (λ e. goto-Moves In s i _ r.1 login_again tt (omega (arith, q.kept.key_taken)))
            λ e.
              Within-cases (nat_eq r.0 1 || nat_eq r.0 escape_choice) _ _
                (λ e1. goto-Moves In s i _ r.1 login_given_up tt (omega (arith, q.kept.key_taken)))
                λ e1. absurd (ground (arith, q.choice))

    pub show_registration_fail-Moves :
        (i : Interface S)
        → Within (Moves In ScreenType.registration_fail i) (show_registration_fail o i)
    unfolding show_registration_fail Screens.registration_fail
    show_registration_fail-Moves i =
        let s = ScreenType.registration_fail in
        Within-bind (Screens.menu 2 i) _ (menu-IsPick 2 i (omega arith) (omega arith)) λ r q.
          Within-cases (nat_eq r.0 0) _ _
            (λ e. goto-Moves In s i _ r.1 registration_again tt (omega (arith, q.kept.key_taken)))
            λ e.
              Within-cases (nat_eq r.0 1 || nat_eq r.0 escape_choice) _ _
                (λ e1.
                  goto-Moves In s i _ r.1 registration_given_up tt
                    (omega (arith, q.kept.key_taken)))
                λ e1. absurd (ground (arith, q.choice))
