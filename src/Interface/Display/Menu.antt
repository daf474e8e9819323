-- ===== src/Interface/Display/Menu.antt =====
-- `interface::make_selection` with what it shows.
use chat.Common.{
  ℕ, ◌+◌, Bool, true, false, ◌||◌, List, [], ◌∷◌, ◌++◌, length, nat_eq, if◌then◌else◌, Str, Outcome,
  done, halt, waiting,
}
use chat.Interface.Keypress.{
  Keypress, regular, escape, enter, backspace, uparrow, downarrow, unknown,
}
use chat.Interface.Selection.{escape_choice, move_up, move_down, move_by_letter}
use chat.Interface.Display.{bytes}

abbrev pub choice_line : Bool → Str → Str
choice_line b c = (if b then bytes "[X] " else bytes "[ ] ") ++ c ++ bytes "\n"

-- The loop over the choices, where `i` is the index of the first of them.
unfoldable pub choice_lines : ℕ → ℕ → List Str → Str
choice_lines selection i [] = []
choice_lines selection i (c ∷ cs) =
    choice_line (nat_eq i selection) c ++ choice_lines selection (i + 1) cs

abbrev pub hint : Str
hint = bytes "\nUse Up and Down arrows to navigate. Press ENTER to confirm. Press ESC to go back."

-- Whether a letter sets `ought_to_redraw`.
abbrev pub moves : ℕ → Bool
moves c = nat_eq c b'w' || nat_eq c b'W' || nat_eq c b's' || nat_eq c b'S'

module _ (prefix : Str) (choices : List Str) where
  unfoldable pub menu : ℕ → Str
  unfolding choice_lines
  menu selection = prefix ++ choice_lines selection 0 choices ++ hint

  -- The screen at the end of the `if (ought_to_redraw)` block.
  abbrev pub redrawn : Bool → ℕ → Str → Str
  redrawn ought_to_redraw selection screen = if ought_to_redraw then menu selection else screen

  -- The loop with its flag, and with what stands on the screen.
  unfoldable pub select_drawn : ℕ → Bool → Str → List Keypress → Outcome (ℕ × Str × List Keypress)
  unfolding menu
  select_drawn selection b screen [] = halt waiting
  select_drawn selection b screen (escape ∷ ks) =
      done (escape_choice, redrawn b selection screen, ks)
  select_drawn selection b screen (uparrow ∷ ks) =
      select_drawn (move_up (length choices) selection) true (redrawn b selection screen) ks
  select_drawn selection b screen (downarrow ∷ ks) =
      select_drawn (move_down (length choices) selection) true (redrawn b selection screen) ks
  select_drawn selection b screen (enter ∷ ks) =
      done (selection, redrawn b selection screen ++ bytes "\n", ks)
  select_drawn selection b screen (regular c ∷ ks) =
      select_drawn (move_by_letter (length choices) c selection) (moves c)
        (redrawn b selection screen) ks
  select_drawn selection b screen (backspace ∷ ks) =
      select_drawn selection false (redrawn b selection screen) ks
  select_drawn selection b screen (unknown ∷ ks) =
      select_drawn selection false (redrawn b selection screen) ks

-- `make_selection` with what stands on the screen when it returns.
unfoldable pub make_selection_drawn :
    Str → List Str → List Keypress → Outcome (ℕ × Str × List Keypress)
unfolding select_drawn
make_selection_drawn prefix choices ks = select_drawn prefix choices 0 true [] ks
