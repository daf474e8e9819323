-- ===== src/Interface/Start/Rounds/Chats.antt =====
-- The chats: which there are, and the texts of one.
use chat.Common.{
  ℕ, zero, suc, ◌+◌, ◌-◌, ◌<◌, ◌≡◌, ◌^◌, refl, ap, sym, subst, ◌∙◌, not, ◌||◌, List, [], ◌∷◌,
  length, some, drop, get_elem?, arith, nat_eq, Status, Within, Within-done, Within-bind,
  Within-cases, Within-map,
}
use chat.Interface.Selection.{escape_choice}
use chat.Interface.Line.{get_user_string, get_user_txt}
use chat.Interface.Line.Editing.{get_user_string-IsLine, get_user_txt-shrinks}
use chat.Interface.State.{ScreenType, ClientCalls, Interface}
use chat.Interface.Screens
use chat.Interface.Cases.{
  is_ok_code, after_call, show_open_chats, pick_chat, show_open_chats_success, show_new_chat,
  fetch_texts, show_recv_txt, background_listener, next_polls, send_typed, show_send_txt,
}
use chat.Interface.Start.Diagram.{
  Guarded, chats_listed, chats_refused, asks_new_chat, chats_left, chat_picked, new_chat_escaped,
  new_chat_named, texts_received, texts_refused, text_escaped, text_sent, text_refused,
  answer_refused,
}
use chat.Interface.Start.Rounds.{
  Kept, menu-IsPick, Moves, goto-Moves, goto_if-Moves, again-Moves, check-Moves,
}

get_elem?-lt {ℓ} :
    {A : Type ℓ} (xs : List A) (k : ℕ) → k < length xs → (x : A) × (get_elem? xs k ≡ some x)
get_elem?-lt [] k h = absurd (omega arith)
get_elem?-lt (x ∷ xs) zero h = (x, refl)
get_elem?-lt (x ∷ xs) (suc k) h = get_elem?-lt xs k (omega arith)

module _ {S : Type 0} where
  new_chat-Kept : (i : Interface S) → Within (Kept i) (Screens.new_chat i)
  unfolding Screens.new_chat
  new_chat-Kept i =
      Within-bind (get_user_string 4 40 i.keys) _ (get_user_string-IsLine 4 40 i.keys) λ r q.
        Within-done _
          (record { next_kept = refl; client_kept = refl; chats_kept = refl; key_taken = q.1 })

  type_text-Kept : (i : Interface S) → Within (Kept i) (Screens.type_text i)
  unfolding Screens.type_text
  type_text-Kept i =
      Within-bind (get_user_txt i.partial_txt_ i.keys) _
        (get_user_txt-shrinks i.keys i.partial_txt_)
        λ r q.
          Within-done _
            (record { next_kept = refl; client_kept = refl; chats_kept = refl; key_taken = q })

  module _ (o : ClientCalls S) (In : S → Type 0) (g : Guarded In o) where
    -- What asking for texts leaves as it is.
    abbrev Fetched : Interface S → Interface S → Type 0
    Fetched i i' = In i'.client_ × (i'.keys ≡ i.keys) × (i'.next_ ≡ i.next_)

    fetch_texts-Fetched :
        (i : Interface S)
        → In i.client_
        → Within (λ (r : Status × Interface S). Fetched i r.1) (fetch_texts o i)
    unfolding fetch_texts
    fetch_texts-Fetched i logged_in =
        Within-bind (o.recv_txt i.correspondent_ i.stat_code_ i.curr_chat_ i.client_) _
          (g.recv_txt_In i.correspondent_ i.stat_code_ i.curr_chat_ i.client_ logged_in)
          λ r q. Within-done _ (q, refl, refl)

    background_listener-Fetched :
        (n : ℕ) (i : Interface S) → In i.client_ → Within (Fetched i) (background_listener o n i)
    unfolding background_listener
    background_listener-Fetched zero i logged_in = Within-done i (logged_in, refl, refl)
    background_listener-Fetched (suc n) i logged_in =
        Within-bind (fetch_texts o i) _ (fetch_texts-Fetched i logged_in) λ r q.
          Within-map (λ i' p. (p.0, p.1 ∙ q.1, p.2 ∙ q.2)) (background_listener-Fetched n r.1 q.0)

    pub show_open_chats-Moves :
        (i : Interface S)
        → In i.client_
        → Within (Moves In ScreenType.open_chats i) (show_open_chats o i)
    unfolding show_open_chats
    show_open_chats-Moves i logged_in =
        let s = ScreenType.open_chats in
        Within-bind (o.recv_correspondents i.stat_code_ i.all_correspondents_ i.client_) _
          (g.recv_correspondents_In i.stat_code_ i.all_correspondents_ i.client_ logged_in)
          λ r q. check-Moves In s i r.0 _ _ λ ok.
            goto_if-Moves In s i (is_ok_code r.1) _ _
              (record i { stat_code_ = r.1; all_correspondents_ = r.2; client_ = r.3 }) chats_listed
              chats_refused (λ e. (q.0, q.1 ok e)) (λ e. q.0) (omega arith) (omega arith)

    pick_chat-Moves :
        (choice : ℕ) (i i' : Interface S)
        → choice - 2 < length i'.all_correspondents_
        → In i'.client_
        → length i'.keys < length i.keys
        → Within (Moves In ScreenType.open_chats_success i) (pick_chat o choice i')
    unfolding pick_chat
    pick_chat-Moves choice i i' h logged_in l =
        let found = get_elem?-lt i'.all_correspondents_ (choice - 2) h in
        rw (found.1, pick_chat)
          (goto-Moves In ScreenType.open_chats_success i ScreenType.recv_txt
            (record i' { correspondent_ = found.0 }) chat_picked logged_in (omega arith))

    pub show_open_chats_success-Moves :
        (i : Interface S)
        → In i.client_ × (2 + length i.all_correspondents_ < 2 ^ 32)
        → Within (Moves In ScreenType.open_chats_success i) (show_open_chats_success o i)
    unfolding show_open_chats_success Screens.open_chats_success
    show_open_chats_success-Moves i p =
        let s = ScreenType.open_chats_success in
        let n = 2 + length i.all_correspondents_ in
        Within-bind (Screens.menu n i) _ (menu-IsPick n i (omega arith) p.1) λ r q.
          let still_in : In r.1.client_ = subst In (sym q.kept.client_kept) p.0 in
          Within-cases (nat_eq r.0 0) _ _
            (λ e. goto-Moves In s i _ r.1 asks_new_chat still_in (omega (arith, q.kept.key_taken)))
            λ e.
              Within-cases (nat_eq r.0 1 || nat_eq r.0 escape_choice) _ _
                (λ e1.
                  goto-Moves In s i _ r.1 chats_left still_in (omega (arith, q.kept.key_taken)))
                λ e1.
                  let same : length r.1.all_correspondents_ ≡ length i.all_correspondents_ =
                    ap length q.kept.chats_kept in
                  pick_chat-Moves r.0 i r.1 (ground (arith, q.choice, same)) still_in
                    q.kept.key_taken

    pub show_new_chat-Moves :
        (i : Interface S)
        → In i.client_
        → Within (Moves In ScreenType.new_chat i) (show_new_chat o i)
    unfolding show_new_chat
    show_new_chat-Moves i logged_in =
        let s = ScreenType.new_chat in
        Within-bind (Screens.new_chat i) _ (new_chat-Kept i) λ i1 k.
          let still_in : In i1.client_ = subst In (sym k.client_kept) logged_in in
          Within-cases i1.hit_escape_ _ _
            (λ e. goto-Moves In s i _ i1 new_chat_escaped still_in (omega (arith, k.key_taken)))
            λ e. goto-Moves In s i _ i1 new_chat_named still_in (omega (arith, k.key_taken))

    pub show_recv_txt-Moves :
        (i : Interface S)
        → In i.client_
        → Within (Moves In ScreenType.recv_txt i) (show_recv_txt o i)
    unfolding show_recv_txt
    show_recv_txt-Moves i logged_in =
        let s = ScreenType.recv_txt in
        Within-bind (fetch_texts o i) _ (fetch_texts-Fetched i logged_in) λ r q.
          let same : length r.1.keys ≡ length i.keys = ap length q.1 in
          check-Moves In s i r.0 _ _ λ ok.
            goto_if-Moves In s i (is_ok_code r.1.stat_code_) _ _ r.1 texts_received texts_refused
              (λ e. q.0) (λ e. q.0) (omega (arith, same)) (omega (arith, same))

    send_typed-Moves :
        (i i' : Interface S)
        → i'.next_ ≡ ScreenType.send_txt
        → In i'.client_
        → length i'.keys < length i.keys
        → Within (Moves In ScreenType.send_txt i) (send_typed o i')
    unfolding send_typed
    send_typed-Moves i i' at_chat logged_in l =
        let s = ScreenType.send_txt in
        Within-bind (o.send_txt i'.correspondent_ i'.partial_txt_ i'.stat_code_ i'.client_) _
          (g.send_txt_In i'.correspondent_ i'.partial_txt_ i'.stat_code_ i'.client_ logged_in)
          λ r q.
            let i1 = after_call r.1 r.2 i' in
            check-Moves In s i r.0 _ _ λ ok.
              Within-cases (not (is_ok_code r.1)) _ _
                (λ e. goto-Moves In s i ScreenType.send_txt_fail i1 text_refused q (omega arith))
                λ e. Within-bind (fetch_texts o i1) _ (fetch_texts-Fetched i1 q) λ f p.
                  let same : length f.1.keys ≡ length i'.keys = ap length p.1 in
                  check-Moves In s i f.0 _ _ λ ok1.
                    Within-cases (not (is_ok_code f.1.stat_code_)) _ _
                      (λ e1.
                        goto-Moves In s i ScreenType.recv_txt_fail f.1 answer_refused p.0
                          (omega (arith, same)))
                      λ e1.
                        again-Moves In s i f.1 (p.2 ∙ at_chat) text_sent p.0 (omega (arith, same))

    pub show_send_txt-Moves :
        (i : Interface S)
        → i.next_ ≡ ScreenType.send_txt
        → In i.client_
        → Within (Moves In ScreenType.send_txt i) (show_send_txt o i)
    unfolding show_send_txt
    show_send_txt-Moves i at_chat logged_in =
        let s = ScreenType.send_txt in
        let n = next_polls i.polls in
        let i0 = record i { partial_txt_ = []; polls = drop 1 i.polls } in
        Within-bind (background_listener o n i0) _ (background_listener-Fetched n i0 logged_in)
          λ i1 f.
            let same : length i1.keys ≡ length i.keys = ap length f.1 in
            Within-bind (Screens.type_text i1) _ (type_text-Kept i1) λ i2 k.
              let still_in : In i2.client_ = subst In (sym k.client_kept) f.0 in
              let stays : i2.next_ ≡ s = k.next_kept ∙ f.2 ∙ at_chat in
              let l : length i2.keys < length i.keys = omega (arith, k.key_taken, same) in
              Within-cases i2.hit_escape_ _ _
                (λ e. goto-Moves In s i _ i2 text_escaped still_in (omega arith))
                λ e. send_typed-Moves i i2 stays still_in l
