-- ===== src/Interface/Start/Rounds.antt =====
-- What one round of `start` does to the screen, the connection and the keys.
pub mod Entry
pub mod Accounts
pub mod Chats
use chat.Common.{
  ℕ, ◌+◌, ◌*◌, ◌<◌, ◌≤◌, ◌≡◌, ◌⊎◌, refl, ap, sym, subst, Bool, true, false, List, [], ◌∷◌, length,
  ◌^◌, Within-waiting, Within-both, arith, if◌then◌else◌, Status, Outcome, done, Within,
  Within-done, Within-bind, Within-cases, Within-map,
}
use chat.Interface.Keypress.{Keypress}
use chat.Interface.Selection.{escape_choice, make_selection, select}
use chat.Interface.Selection.Reach.{select-IsChoice, select-shrinks}
use chat.Interface.State.{ScreenType, Interface}
use chat.Interface.Screens.{menu, notice, wait_anykey}
use chat.Interface.Cases.{Next, again, returns, goto, check}
use chat.Interface.Start.Diagram.{◌⟶◌, left_over, Requires}

wait_anykey-shrinks :
    (ks : List Keypress) → Within (λ (ks' : List Keypress). length ks' < length ks) (wait_anykey ks)
unfolding wait_anykey
wait_anykey-shrinks [] = Within-waiting
wait_anykey-shrinks (k ∷ ks) = Within-done ks (omega arith)

module _ {S : Type 0} where
  -- What a screen that reads keys leaves as it is.
  pub record Kept (i i' : Interface S) : Type 0 where
    pub next_kept : i'.next_ ≡ i.next_
    pub client_kept : i'.client_ ≡ i.client_
    pub chats_kept : i'.all_correspondents_ ≡ i.all_correspondents_
    pub key_taken : length i'.keys < length i.keys

  pub record IsPick (n : ℕ) (i : Interface S) (r : ℕ × Interface S) : Type 0 where
    pub choice : (r.0 < n) ⊎ (r.0 ≡ escape_choice)
    pub kept : Kept i r.1

  pub menu-IsPick : (n : ℕ) (i : Interface S) → 0 < n → n < 2 ^ 32 → Within (IsPick n i) (menu n i)
  unfolding menu make_selection
  menu-IsPick n i h few =
      Within-bind (select n 0 i.keys) _
        (Within-both (select-IsChoice n h few i.keys 0 h) (select-shrinks n i.keys 0))
        λ r q. Within-done _ (record {
          choice = q.0;
          kept = record {
            next_kept = refl;
            client_kept = refl;
            chats_kept = refl;
            key_taken = q.1;
          };
        })

  pub notice-Kept : (i : Interface S) → Within (Kept i) (notice i)
  unfolding notice
  notice-Kept i = Within-bind (wait_anykey i.keys) _ (wait_anykey-shrinks i.keys) λ ks q.
      Within-done _
        (record { next_kept = refl; client_kept = refl; chats_kept = refl; key_taken = q })

  module _ (In : S → Type 0) where
    -- A step from `s` to `t`, which leaves `i'` behind.
    pub record Step (s : ScreenType) (i : Interface S) (t : ScreenType) (i' : Interface S)
        : Type 0 where
      pub arrow : s ⟶ t
      pub session : Requires In t i'.all_correspondents_ i'.client_
      pub shorter : left_over t i'.keys < left_over s i.keys

    -- What a round on the screen `s` does.
    abbrev pub Moves : ScreenType → Interface S → Next S → Type 0
    Moves s i (again i') = Step s i i'.next_ i'
    Moves s i (returns st i') = st ≡ Status.ok → (s ≡ ScreenType.exit) × (i' ≡ i)

    module _ (s : ScreenType) (i : Interface S) where
      pub goto-Moves :
          (t : ScreenType) (i' : Interface S)
          → s ⟶ t
          → Requires In t i'.all_correspondents_ i'.client_
          → left_over t i'.keys < left_over s i.keys
          → Within (Moves s i) (goto t i')
      goto-Moves t i' a r l = Within-done _ (record { arrow = a; session = r; shorter = l })

      pub goto_if-Moves :
          (b : Bool) (t u : ScreenType) (i' : Interface S)
          → s ⟶ t
          → s ⟶ u
          → (b ≡ true → Requires In t i'.all_correspondents_ i'.client_)
          → (b ≡ false → Requires In u i'.all_correspondents_ i'.client_)
          → left_over t i'.keys < left_over s i.keys
          → left_over u i'.keys < left_over s i.keys
          → Within (Moves s i) (goto (if b then t else u) i')
      goto_if-Moves true t u i' a b p q l m = goto-Moves t i' a (p refl) l
      goto_if-Moves false t u i' a b p q l m = goto-Moves u i' b (q refl) m

      pub again-Moves :
          (i' : Interface S)
          → i'.next_ ≡ s
          → s ⟶ s
          → Requires In s i'.all_correspondents_ i'.client_
          → length i'.keys < length i.keys
          → Within (Moves s i) (done (again i'))
      again-Moves i' e a r l = Within-done _ (
          subst (λ t. Step s i t i') (sym e)
            (record { arrow = a; session = r; shorter = omega arith }))

      pub check-Moves :
          (st : Status) (i' : Interface S) (k : Outcome (Next S))
          → (st ≡ Status.ok → Within (Moves s i) k)
          → Within (Moves s i) (check st i' k)
      check-Moves Status.ok i' k h = h refl
      check-Moves Status.error i' k h = Within-done _ (λ e. absurd (cc))
      check-Moves Status.send_error i' k h = Within-done _ (λ e. absurd (cc))
      check-Moves Status.receive_error i' k h = Within-done _ (λ e. absurd (cc))
      check-Moves Status.closed_connection i' k h = Within-done _ (λ e. absurd (cc))
      check-Moves Status.header_error i' k h = Within-done _ (λ e. absurd (cc))
      check-Moves Status.body_error i' k h = Within-done _ (λ e. absurd (cc))
