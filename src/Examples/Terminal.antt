-- ===== src/Examples/Terminal.antt =====
-- A user types a text, corrects it, and is interrupted by a text that comes in; and chooses from a
-- menu.
use chat.Common.{
  ◌⊎◌, ℕ, ◌≡◌, refl, ◌∙◌, false, List, [], ◌∷◌, ◌++◌, append-nil, Str, arith, nat_eq, if◌then◌else◌,
  done,
}
use chat.Chat.{Chat, sender_other}
use chat.Interface.Keypress.{regular, enter, backspace, downarrow}
use chat.Interface.Line.{pop_back, get_user_txt}
use chat.Interface.Display.{
  IsPrintable, Terminal, bytes, prompt, Moment, typed, received, moments, draw_send_txt,
}
use chat.Interface.Selection.{escape_choice, move_down}
use chat.Interface.Display.Menu.{hint, menu, select_drawn, make_selection_drawn}
use chat.Interface.Display.Marked.{IsMarkedAt, make_selection_marked}
use chat.Interface.Display.Typing.{pop_back-append, typed_in_sight}
use chat.Examples.Accounts.{alice, bobby, hello}
use chat.Examples.Screens.{in_chat}

-- A terminal of which only the cursor's line is kept.
abbrev put_char : ℕ → Str → Str
put_char c l = if nat_eq c 10 then [] else if nat_eq c 8 then pop_back l else l ++ (c ∷ [])

put_char_printable : (c : ℕ) (l : Str) → IsPrintable c → put_char c l ≡ l ++ (c ∷ [])
put_char_printable c l h = ground arith

pop_back_space : (l : Str) → pop_back (l ++ (32 ∷ [])) ≡ l
pop_back_space l = pop_back-append l 32 [] ∙ unfold pop_back in append-nil l

abbrev one_line : Terminal Str
one_line = record {
  clear = λ l. [];
  put = put_char;
  line = λ l. l;
  line-put_newline = λ l. refl;
  line-put = λ l c h. put_char_printable c l h;
  line-rubout = λ l. pop_back_space (pop_back l);
}

abbrev incoming : Chat
incoming = record { texts_ = record { sender_ = sender_other; content_ = hello } ∷ [] }

-- "yo", of which the last letter is typed anew behind bob's text
abbrev typing : List Moment
typing =
    typed (regular b'y')
    ∷ typed (regular b'e')
    ∷ received incoming
    ∷ typed backspace
    ∷ typed (regular b'o')
    ∷ []

typed_in_sight_example :
    (txt : Str) × ((moments one_line typing (in_chat, draw_send_txt one_line in_chat [])).1
      ≡ prompt ++ txt)
    × (get_user_txt [] (regular b'y' ∷ regular b'e' ∷ backspace ∷ regular b'o' ∷ enter ∷ [])
        ≡ done (txt, false, []))
typed_in_sight_example = typed_in_sight one_line in_chat [] typing [] refl (ground arith)

abbrev names : List Str
names = alice ∷ bobby ∷ []

abbrev second_chosen : Str
second_chosen = menu hello names 1 ++ bytes "\n"

downwards : make_selection_drawn hello names (downarrow ∷ enter ∷ []) ≡ done (1, second_chosen, [])
unfolding make_selection_drawn select_drawn move_down
downwards = refl

make_selection_marked_example : ◌⊎◌ (◌≡◌ {A = ℕ} 1 escape_choice) (
    (lines : Str) × IsMarkedAt 1 names lines
    × (second_chosen ≡ (hello ++ lines ++ hint) ++ bytes "\n"))
make_selection_marked_example =
    make_selection_marked hello names (downarrow ∷ enter ∷ []) [] 1 second_chosen (omega arith)
      (omega arith) downwards
