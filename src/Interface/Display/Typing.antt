-- ===== src/Interface/Display/Typing.antt =====
-- The screen of src/client/interface.cc while the user types: what is typed stays in sight.
use chat.Common.{
  ℕ, ◌≡◌, refl, sym, ap, subst, ◌∙◌, List, [], ◌∷◌, ◌++◌, Str, All, arith, append_assoc, append-nil,
  false, done, if_cases, nat_eq, length,
}
use chat.Interface.Keypress.{
  Keypress, regular, escape, enter, backspace, uparrow, downarrow, unknown,
}
use chat.Interface.State.{Interface}
use chat.Interface.Line.{pop_back, get_user_txt}
use chat.Interface.Line.Editing.{edit, edit_all, IsEdit, get_user_txt-edit_all}
use chat.Interface.Display.{
  IsPrintable, Terminal, echo, prompt, closing, opening, put_all, draw_send_txt, Moment, typed,
  received, moment, moments,
}

-- The keys that a line of printable characters is written with.
abbrev pub WritesText : Keypress → Type 0
WritesText (regular c) = IsPrintable c
WritesText k = IsEdit k

abbrev pub IsTyping : Moment → Type 0
IsTyping (typed k) = WritesText k
IsTyping (received c) = Unit {0}

abbrev pub keys_of : List Moment → List Keypress
keys_of [] = []
keys_of (typed k ∷ ms) = k ∷ keys_of ms
keys_of (received c ∷ ms) = keys_of ms

WritesText-IsEdit : (k : Keypress) → WritesText k → IsEdit k
WritesText-IsEdit (regular c) h = tt
WritesText-IsEdit backspace h = h
WritesText-IsEdit uparrow h = h
WritesText-IsEdit downarrow h = h
WritesText-IsEdit unknown h = h
WritesText-IsEdit enter h = h
WritesText-IsEdit escape h = h

keys_of-IsEdit : (ms : List Moment) → All IsTyping ms → All IsEdit (keys_of ms)
keys_of-IsEdit [] h = tt
keys_of-IsEdit (typed k ∷ ms) (p, h) = (WritesText-IsEdit k p, keys_of-IsEdit ms h)
keys_of-IsEdit (received c ∷ ms) (p, h) = keys_of-IsEdit ms h

pop_back-IsPrintable : (s : Str) → All IsPrintable s → All IsPrintable (pop_back s)
unfolding pop_back
pop_back-IsPrintable [] h = tt
pop_back-IsPrintable (c ∷ []) h = tt
pop_back-IsPrintable (c ∷ (d ∷ s)) (p, h) = (p, pop_back-IsPrintable (d ∷ s) h)

All-append {ℓ κ} : {A : Type ℓ} (P : A → Type κ) (s t : List A) → All P s → All P t → All P (s ++ t)
All-append P [] t h k = k
All-append P (c ∷ s) t (p, h) k = (p, All-append P s t h k)

edit-IsPrintable :
    (s : Str) (k : Keypress) → All IsPrintable s → WritesText k → All IsPrintable (edit s k)
edit-IsPrintable s (regular c) h p = All-append IsPrintable s (c ∷ []) h (p, tt)
edit-IsPrintable s backspace h p = pop_back-IsPrintable s h
edit-IsPrintable s uparrow h p = h
edit-IsPrintable s downarrow h p = h
edit-IsPrintable s unknown h p = h
edit-IsPrintable s enter h p = absurd p
edit-IsPrintable s escape h p = absurd p

pub pop_back-append : (r : Str) (c : ℕ) (s : Str) → pop_back (r ++ (c ∷ s)) ≡ r ++ pop_back (c ∷ s)
unfolding pop_back
pop_back-append [] c s = refl
pop_back-append (a ∷ []) c s = refl
pop_back-append (a ∷ (b ∷ r)) c s = ap (λ x. a ∷ x) (pop_back-append (b ∷ r) c s)

module _ {T : Type 0} (o : Terminal T) where
  line-put_all : (s : Str) (t : T) → All IsPrintable s → o.line (put_all o s t) ≡ o.line t ++ s
  line-put_all [] t h = sym (append-nil (o.line t))
  line-put_all (c ∷ s) t (p, h) =
      line-put_all s (o.put c t) h
      ∙ ap (λ l. l ++ s) (o.line-put t c p)
      ∙ append_assoc (o.line t) (c ∷ []) s

  put_all-append : (s r : Str) (t : T) → put_all o (s ++ r) t ≡ put_all o r (put_all o s t)
  put_all-append [] r t = refl
  put_all-append (c ∷ s) r t = put_all-append s r (o.put c t)

  prompt-IsPrintable : All IsPrintable prompt
  prompt-IsPrintable = ground arith

  closing-line : (s : Str) (t : T) → o.line (put_all o (s ++ closing) t) ≡ []
  closing-line s t = ap o.line (put_all-append s closing t) ∙ o.line-put_newline _

  backspace_echo :
      (txt : Str) (t : T)
      → o.line t ≡ prompt ++ txt
      → o.line (put_all o (echo txt backspace) t) ≡ prompt ++ pop_back txt
  unfolding echo
  backspace_echo [] t h = unfold pop_back in h
  backspace_echo (c ∷ s) t h = o.line-rubout t ∙ ap pop_back h ∙ pop_back-append prompt c s

  key_echo :
      (txt : Str) (k : Keypress) (t : T)
      → WritesText k
      → o.line t ≡ prompt ++ txt
      → o.line (put_all o (echo txt k) t) ≡ prompt ++ edit txt k
  unfolding echo
  key_echo txt (regular c) t p h =
      o.line-put t c p ∙ ap (λ l. l ++ (c ∷ [])) h ∙ append_assoc prompt txt (c ∷ [])
  key_echo txt backspace t p h = backspace_echo txt t h
  key_echo txt uparrow t p h = h
  key_echo txt downarrow t p h = h
  key_echo txt unknown t p h = h
  key_echo txt enter t p h = absurd p
  key_echo txt escape t p h = absurd p

  module _ {S : Type 0} where
    -- The prompt and what has been typed stand on the cursor's line.
    pub record Shows (i : Interface S) (t : T) : Type 0 where
      pub in_sight : o.line t ≡ prompt ++ i.partial_txt_
      pub printable : All IsPrintable i.partial_txt_

    draw_send_txt-Shows :
        (i : Interface S) (t : T) → All IsPrintable i.partial_txt_ → Shows i (draw_send_txt o i t)
    unfolding draw_send_txt
    draw_send_txt-Shows i t h = record {
      in_sight =
          line-put_all i.partial_txt_ _ h
          ∙ ap (λ l. l ++ i.partial_txt_)
              (line-put_all prompt (put_all o (opening i ++ closing) (o.clear t)) prompt-IsPrintable
                ∙ ap (λ l. l ++ prompt) (closing-line (opening i) (o.clear t)));
      printable = h;
    }

    moment-Shows :
        (m : Moment) (i : Interface S) (t : T)
        → IsTyping m
        → Shows i t
        → Shows (moment o m (i, t)).0 (moment o m (i, t)).1
    unfolding moment
    moment-Shows (typed k) i t p h = record {
      in_sight = key_echo i.partial_txt_ k t p h.in_sight;
      printable = edit-IsPrintable i.partial_txt_ k h.printable p;
    }
    moment-Shows (received c) i t p h =
        if_cases (λ (s : Interface S × T). Shows s.0 s.1)
          (nat_eq (length i.curr_chat_.texts_) (length c.texts_)) _ _
          (λ e. record { in_sight = h.in_sight; printable = h.printable })
          (λ e. draw_send_txt-Shows (record i { curr_chat_ = c }) t h.printable)

    moments-Shows :
        (ms : List Moment) (i : Interface S) (t : T)
        → All IsTyping ms
        → Shows i t
        → Shows (moments o ms (i, t)).0 (moments o ms (i, t)).1
    unfolding moments
    moments-Shows [] i t h k = k
    moments-Shows (m ∷ ms) i t (p, h) k = moments-Shows ms _ _ h (moment-Shows m i t p k)

    moments-partial :
        (ms : List Moment) (i : Interface S) (t : T)
        → (moments o ms (i, t)).0.partial_txt_ ≡ edit_all i.partial_txt_ (keys_of ms)
    unfolding moments moment
    moments-partial [] i t = refl
    moments-partial (typed k ∷ ms) i t =
        moments-partial ms (record i { partial_txt_ = edit i.partial_txt_ k }) _
    moments-partial (received c ∷ ms) i t =
        if_cases
          (λ (s : Interface S × T).
            (moments o ms s).0.partial_txt_ ≡ edit_all i.partial_txt_ (keys_of ms))
          (nat_eq (length i.curr_chat_.texts_) (length c.texts_)) _ _
          (λ e. moments-partial ms (record i { curr_chat_ = c }) t)
          (λ e. moments-partial ms (record i { curr_chat_ = c }) _)

-- The `send_txt` screen is drawn with nothing typed, and then keys are read that write or delete
-- printable characters while the listener receives texts and draws the screen anew any number of
-- times. Given a
-- terminal that shows what it is told to: behind the prompt stands, at any moment, just the text
-- that ENTER would send.
pub typed_in_sight :
    {S T : Type 0} (o : Terminal T) (i : Interface S) (t : T) (ms : List Moment)
    (rest : List Keypress)
    → i.partial_txt_ ≡ []
    → All IsTyping ms
    → (txt : Str) × (o.line (moments o ms (i, draw_send_txt o i t)).1 ≡ prompt ++ txt)
      × (get_user_txt [] (keys_of ms ++ (enter ∷ rest)) ≡ done (txt, false, rest))
typed_in_sight o i t ms rest e h =
    let shown =
      moments-Shows o ms i (draw_send_txt o i t) h
        (draw_send_txt-Shows o i t (subst (All IsPrintable) (sym e) tt)) in
    (
      edit_all [] (keys_of ms),
      shown.in_sight
          ∙ ap (λ x. prompt ++ x)
              (moments-partial o ms i (draw_send_txt o i t) ∙ ap (λ x. edit_all x (keys_of ms)) e),
      get_user_txt-edit_all (keys_of ms) rest [] (keys_of-IsEdit ms h),
    )
