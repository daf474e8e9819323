-- ===== src/Interface/Start/Session.antt =====
-- All rounds of `start`: that it comes to an end, and which screens it can show.
use chat.Common.{
  ℕ, zero, suc, ◌+◌, ◌*◌, ◌<◌, ◌≡◌, refl, ap, sym, subst, ◌∙◌, length, arith, Status, Outcome, done,
  Within, Within-done, Within-bind,
}
use chat.Interface.State.{ScreenType, ClientCalls, Interface}
use chat.Interface.Cases.{again, returns}
use chat.Interface.Start.{show, run, connected, start}
use chat.Interface.Start.Diagram
use chat.Interface.Start.Diagram.{◌⟶◌, left_over, Requires, Guarded}
use chat.Interface.Start.Rounds.{Moves, Step}
use chat.Interface.Start.Rounds.Entry.{
  show_login_registration-Moves, show_login-Moves, show_registration_success-Moves,
  show_registration-Moves, show_login_fail-Moves, show_registration_fail-Moves,
}
use chat.Interface.Start.Rounds.Accounts.{
  show_main_menu-Moves, show_search_accounts-Moves, show_delete_account-Moves, show_notice-Moves,
}
use chat.Interface.Start.Rounds.Chats.{
  show_open_chats-Moves, show_open_chats_success-Moves, show_new_chat-Moves, show_recv_txt-Moves,
  show_send_txt-Moves,
}

-- The screens that are shown one after another, from a first one on.
pub data Visits {S : Type 0} (o : ClientCalls S) (i : Interface S) : Interface S → Type 0 where
  first : Visits o i i
  round : {j k : Interface S} → Visits o i j → show o j.next_ j ≡ done (again k) → Visits o i k

module _ {S : Type 0} (o : ClientCalls S) (In : S → Type 0) (g : Guarded In o) where
  show_at :
      (s : ScreenType) (i : Interface S)
      → i.next_ ≡ s
      → Requires In s i.all_correspondents_ i.client_
      → Within (Moves In s i) (show o s i)
  unfolding show
  show_at ScreenType.login_registration i e p = show_login_registration-Moves o In g i
  show_at ScreenType.login i e p = show_login-Moves o In g i
  show_at ScreenType.login_fail i e p = show_login_fail-Moves o In g i
  show_at ScreenType.registration i e p = show_registration-Moves o In g i
  show_at ScreenType.registration_success i e p = show_registration_success-Moves o In g i
  show_at ScreenType.registration_fail i e p = show_registration_fail-Moves o In g i
  show_at ScreenType.main_menu i e p = show_main_menu-Moves o In g i e p
  show_at ScreenType.open_chats i e p = show_open_chats-Moves o In g i p
  show_at ScreenType.open_chats_success i e p = show_open_chats_success-Moves o In g i p
  show_at ScreenType.open_chats_fail i e p =
      show_notice-Moves o In g _ _ i Diagram.chats_noticed (omega arith) (λ us. p)
  show_at ScreenType.new_chat i e p = show_new_chat-Moves o In g i p
  show_at ScreenType.recv_txt i e p = show_recv_txt-Moves o In g i p
  show_at ScreenType.recv_txt_fail i e p =
      show_notice-Moves o In g _ _ i Diagram.texts_noticed (omega arith) (λ us. p)
  show_at ScreenType.send_txt i e p = show_send_txt-Moves o In g i e p
  show_at ScreenType.send_txt_fail i e p =
      show_notice-Moves o In g _ _ i Diagram.refusal_noticed (omega arith) (λ us. p)
  show_at ScreenType.search_accounts i e p = show_search_accounts-Moves o In g i p
  show_at ScreenType.search_accounts_success i e p =
      show_notice-Moves o In g _ _ i Diagram.answer_noticed (omega arith) (λ us. p)
  show_at ScreenType.search_accounts_fail i e p =
      show_notice-Moves o In g _ _ i Diagram.search_noticed (omega arith) (λ us. p)
  show_at ScreenType.delete_account i e p = show_delete_account-Moves o In g i p
  show_at ScreenType.delete_account_success i e p =
      show_notice-Moves o In g _ _ i Diagram.deletion_noticed (omega arith) (λ us. tt)
  show_at ScreenType.delete_account_fail i e p =
      show_notice-Moves o In g _ _ i Diagram.failure_noticed (omega arith) (λ us. p)
  show_at ScreenType.exit i e p = Within-done _ (λ e. (refl, refl))

  -- What the screen that is shown next needs is there.
  abbrev pub IsServed : Interface S → Type 0
  IsServed i = Requires In i.next_ i.all_correspondents_ i.client_

  entry-IsServed : (i : Interface S) → i.next_ ≡ ScreenType.login_registration → IsServed i
  entry-IsServed i e = subst (λ s. Requires In s i.all_correspondents_ i.client_) (sym e) tt

  round-Step :
      (i j : Interface S)
      → IsServed i
      → show o i.next_ i ≡ done (again j)
      → Step In i.next_ i j.next_ j
  round-Step i j p e = (show_at i.next_ i refl p).ends.at (again j) e

  -- With a client that keeps the promises of `Guarded`, and from the first screen on, every screen
  -- behind the login is shown to a connection only that the server has logged in, and the menu of the
  -- chats only with fewer than 2 ^ 32 choices.
  pub visits-IsServed :
      (i j : Interface S) → i.next_ ≡ ScreenType.login_registration → Visits o i j → IsServed j
  visits-IsServed i _ e first = entry-IsServed i e
  visits-IsServed i k e (round {j} v h) = (round-Step j k (visits-IsServed i j e v) h).session

  -- With such a client, and from the first screen on, a round that goes on follows an arrow of the
  -- diagram.
  pub visits_follow :
      (i j k : Interface S)
      → i.next_ ≡ ScreenType.login_registration
      → Visits o i j
      → show o j.next_ j ≡ done (again k)
      → j.next_ ⟶ k.next_
  visits_follow i j k e v h = (round-Step j k (visits-IsServed i j e v) h).arrow

  -- What `start` returns if all goes well: it was left by the screen that leaves.
  abbrev pub LeftByExit : Outcome (Status × Interface S) → Type 0
  LeftByExit o =
      Within (λ (r : Status × Interface S). r.0 ≡ Status.ok → r.1.next_ ≡ ScreenType.exit) o

  run-LeftByExit :
      (f : ℕ) (i : Interface S) → IsServed i → left_over i.next_ i.keys < f → LeftByExit (run o f i)
  unfolding run
  run-LeftByExit zero i p h = absurd (omega arith)
  run-LeftByExit (suc f) i p h = Within-bind (show o i.next_ i) _ (show_at i.next_ i refl p) λ n.
      elim n
        as (λ n.
          Moves In i.next_ i n
          → LeftByExit (elim n [ again i' ↦ run o f i' | returns s i' ↦ done (s, i') ])) [
            | again i' ↦ λ m. run-LeftByExit f i' m.session (omega (arith, m.shorter))
            | returns s i' ↦ λ m. Within-done _ (λ ok. ap (λ j. j.next_) (m ok).1 ∙ (m ok).0)
          ]

  connected-LeftByExit : (st : Status) (i : Interface S) → LeftByExit (connected o st i)
  unfolding connected
  connected-LeftByExit Status.ok i =
      run-LeftByExit (2 * length i.keys + 1) (record i { next_ = ScreenType.login_registration }) tt
        (omega arith)
  connected-LeftByExit Status.error i = Within-done _ λ ok. absurd (cc)
  connected-LeftByExit Status.send_error i = Within-done _ λ ok. absurd (cc)
  connected-LeftByExit Status.receive_error i = Within-done _ λ ok. absurd (cc)
  connected-LeftByExit Status.closed_connection i = Within-done _ λ ok. absurd (cc)
  connected-LeftByExit Status.header_error i = Within-done _ λ ok. absurd (cc)
  connected-LeftByExit Status.body_error i = Within-done _ λ ok. absurd (cc)

  -- With a client that keeps the promises of `Guarded`, `start` halts on no list of keys but to wait
  -- for a key or for the server: its rounds come to an end, and it reads no chat behind the last one.
  -- And if it returns OK, then from the screen that leaves.
  pub start-LeftByExit : (n : ℕ) (i : Interface S) → LeftByExit (start o n i)
  unfolding start
  start-LeftByExit n i =
      Within-bind (o.connect_server n i.client_) _ (g.connect_server_returns n i.client_)
        λ r q. connected-LeftByExit r.0 (record i { client_ = r.1 })
