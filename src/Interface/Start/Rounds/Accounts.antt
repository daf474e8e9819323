-- ===== src/Interface/Start/Rounds/Accounts.antt =====
-- The main menu, the search and the deletion, and the screens that wait for any key.
use chat.Common.{
  ◌<◌, ◌≤◌, ◌≡◌, refl, sym, subst, ◌∙◌, ◌||◌, List, length, arith, nat_eq, Str, Within, Within-done,
  Within-bind, Within-cases,
}
use chat.Interface.Selection.{escape_choice}
use chat.Interface.Line.{get_user_string}
use chat.Interface.Line.Editing.{get_user_string-IsLine}
use chat.Interface.State.{ScreenType, ClientCalls, Interface}
use chat.Interface.Screens
use chat.Interface.Cases.{
  is_ok_code, after_call, log_out, show_main_menu, search, show_search_accounts, delete,
  show_delete_account, show_notice,
}
use chat.Interface.Start.Diagram.{
  ◌⟶◌, unkeyed, Requires, Guarded, asks_chats, asks_search, asks_deletion, logs_out, logout_refused,
  search_escaped, search_answered, search_refused, deletion_declined, deleted, deletion_refused,
}
use chat.Interface.Start.Rounds.{
  Kept, menu-IsPick, notice-Kept, Moves, goto-Moves, goto_if-Moves, again-Moves, check-Moves,
}

module _ {S : Type 0} where
  search_accounts-Kept : (i : Interface S) → Within (Kept i) (Screens.search_accounts i)
  unfolding Screens.search_accounts
  search_accounts-Kept i =
      Within-bind (get_user_string 1 40 i.keys) _ (get_user_string-IsLine 1 40 i.keys) λ r q.
        Within-done _
          (record { next_kept = refl; client_kept = refl; chats_kept = refl; key_taken = q.1 })

  module _ (o : ClientCalls S) (In : S → Type 0) (g : Guarded In o) where
    log_out-Moves :
        (i i' : Interface S)
        → i'.next_ ≡ ScreenType.main_menu
        → In i'.client_
        → length i'.keys < length i.keys
        → Within (Moves In ScreenType.main_menu i) (log_out o i')
    unfolding log_out
    log_out-Moves i i' at_menu logged_in l =
        let s = ScreenType.main_menu in
        Within-bind (o.logout i'.stat_code_ i'.client_) _
          (g.logout_In i'.stat_code_ i'.client_ logged_in)
          λ r q. check-Moves In s i r.0 _ _ λ ok.
            Within-cases (is_ok_code r.1) _ _
              (λ e.
                goto-Moves In s i ScreenType.login_registration (after_call r.1 r.2 i') logs_out tt
                  (omega arith))
              λ e. again-Moves In s i (after_call r.1 r.2 i') at_menu logout_refused (q e) l

    pub show_main_menu-Moves :
        (i : Interface S)
        → i.next_ ≡ ScreenType.main_menu
        → In i.client_
        → Within (Moves In ScreenType.main_menu i) (show_main_menu o i)
    unfolding show_main_menu Screens.main_menu
    show_main_menu-Moves i at_menu logged_in =
        let s = ScreenType.main_menu in
        Within-bind (Screens.menu 4 i) _ (menu-IsPick 4 i (omega arith) (omega arith)) λ r q.
          let still_in : In r.1.client_ = subst In (sym q.kept.client_kept) logged_in in
          Within-cases (nat_eq r.0 0) _ _
            (λ e. goto-Moves In s i _ r.1 asks_chats still_in (omega (arith, q.kept.key_taken)))
            λ e.
              Within-cases (nat_eq r.0 1) _ _
                (λ e1.
                  goto-Moves In s i _ r.1 asks_search still_in (omega (arith, q.kept.key_taken)))
                λ e1.
                  Within-cases (nat_eq r.0 2) _ _
                    (λ e2.
                      goto-Moves In s i _ r.1 asks_deletion still_in
                        (omega (arith, q.kept.key_taken)))
                    λ e2.
                      Within-cases (nat_eq r.0 3 || nat_eq r.0 escape_choice) _ _
                        (λ e3.
                          log_out-Moves i r.1 (q.kept.next_kept ∙ at_menu) still_in
                            q.kept.key_taken)
                        λ e3. absurd (ground (arith, q.choice))

    pub show_search_accounts-Moves :
        (i : Interface S)
        → In i.client_
        → Within (Moves In ScreenType.search_accounts i) (show_search_accounts o i)
    unfolding show_search_accounts search
    show_search_accounts-Moves i logged_in =
        let s = ScreenType.search_accounts in
        Within-bind (Screens.search_accounts i) _ (search_accounts-Kept i) λ i1 k.
          let still_in : In i1.client_ = subst In (sym k.client_kept) logged_in in
          Within-cases i1.hit_escape_ _ _
            (λ e. goto-Moves In s i _ i1 search_escaped still_in (omega (arith, k.key_taken)))
            λ e.
              Within-bind
                (o.list_accounts i1.pattern_ i1.stat_code_ i1.matched_usernames_ i1.client_) _
                (g.list_accounts_In i1.pattern_ i1.stat_code_ i1.matched_usernames_ i1.client_
                  still_in)
                λ r q. check-Moves In s i r.0 _ _ λ ok.
                  goto_if-Moves In s i (is_ok_code r.1) _ _
                    (record i1 { stat_code_ = r.1; matched_usernames_ = r.2; client_ = r.3 })
                    search_answered search_refused (λ e. q) (λ e. q) (omega (arith, k.key_taken))
                    (omega (arith, k.key_taken))

    pub show_delete_account-Moves :
        (i : Interface S)
        → In i.client_
        → Within (Moves In ScreenType.delete_account i) (show_delete_account o i)
    unfolding show_delete_account Screens.delete_account delete
    show_delete_account-Moves i logged_in =
        let s = ScreenType.delete_account in
        Within-bind (Screens.menu 2 i) _ (menu-IsPick 2 i (omega arith) (omega arith)) λ r q.
          let still_in : In r.1.client_ = subst In (sym q.kept.client_kept) logged_in in
          Within-cases (nat_eq r.0 0 || nat_eq r.0 escape_choice) _ _
            (λ e.
              goto-Moves In s i _ r.1 deletion_declined still_in (omega (arith, q.kept.key_taken)))
            λ e.
              Within-cases (nat_eq r.0 1) _ _
                (λ e1.
                  Within-bind (o.delete_account r.1.stat_code_ r.1.client_) _
                    (g.delete_account_In r.1.stat_code_ r.1.client_ still_in)
                    λ d p. check-Moves In s i d.0 _ _ λ ok.
                      goto_if-Moves In s i (is_ok_code d.1) _ _ (after_call d.1 d.2 r.1) deleted
                        deletion_refused (λ e. tt) p (omega (arith, q.kept.key_taken))
                        (omega (arith, q.kept.key_taken)))
                λ e1. absurd (ground (arith, q.choice))

    pub show_notice-Moves :
        (s t : ScreenType) (i : Interface S)
        → s ⟶ t
        → unkeyed t ≤ 1
        → ((us : List Str) → Requires In t us i.client_)
        → Within (Moves In s i) (show_notice o t i)
    unfolding show_notice
    show_notice-Moves s t i a u f = Within-bind (Screens.notice i) _ (notice-Kept i) λ i1 k.
        goto-Moves In s i t i1 a
          (subst (Requires In t i1.all_correspondents_) (sym k.client_kept)
            (f i1.all_correspondents_))
          (omega (arith, k.key_taken, u))
