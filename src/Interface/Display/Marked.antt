-- ===== src/Interface/Display/Marked.antt =====
-- Which choice of `interface::make_selection` is marked when ENTER is hit.
use chat.Common.{
  ℕ, zero, suc, ◌+◌, ◌<◌, ◌≡◌, ◌⊎◌, refl, sym, ap, ◌∙◌, inl, inr, Bool, true, false, List, [], ◌∷◌,
  ◌++◌, length, arith, Str, done, waiting, ◌>>=◌, Ends, Ends-done, Ends-halt, Bool-cases, ap₂,
  eq→nat_eq, ne→nat_eq, append_assoc, ◌^◌,
}
use chat.Interface.Keypress.{
  Keypress, regular, escape, enter, backspace, uparrow, downarrow, unknown,
}
use chat.Interface.Selection.{escape_choice, move_by_letter, select, make_selection}
use chat.Interface.Selection.Reach.{make_selection-lt}
use chat.Interface.Display.{bytes}
use chat.Interface.Display.Menu.{
  choice_line, choice_lines, hint, moves, menu, redrawn, select_drawn, make_selection_drawn,
}

module _ (prefix : Str) (choices : List Str) where
  -- If no redraw is due, the selection stands on the screen.
  abbrev UpToDate : Bool → ℕ → Str → Type 0
  UpToDate b selection screen = (b ≡ true) ⊎ (screen ≡ menu prefix choices selection)

  redrawn-UpToDate :
      (b : Bool) (selection : ℕ) (screen : Str)
      → UpToDate b selection screen
      → redrawn prefix choices b selection screen ≡ menu prefix choices selection
  redrawn-UpToDate true selection screen h = refl
  redrawn-UpToDate false selection screen (inl e) = absurd (cc)
  redrawn-UpToDate false selection screen (inr e) = e

  letter-UpToDate :
      (c : ℕ) (selection : ℕ) (screen : Str)
      → screen ≡ menu prefix choices selection
      → UpToDate (moves c) (move_by_letter (length choices) c selection) screen
  unfolding move_by_letter
  letter-UpToDate c selection screen h = elim (Bool-cases (moves c)) [
    | inl e ↦ inl e
    | inr e ↦ inr (h ∙ ap (menu prefix choices) (ground arith))
  ]

  -- The choice is marked on the screen, behind which the line is ended; or it is ESC.
  abbrev Marked : ℕ × Str × List Keypress → Type 0
  Marked r = (r.0 ≡ escape_choice) ⊎ (r.1 ≡ menu prefix choices r.0 ++ bytes "\n")

  select_drawn-Marked :
      (ks : List Keypress) (selection : ℕ) (b : Bool) (screen : Str)
      → UpToDate b selection screen
      → Ends Marked (select_drawn prefix choices selection b screen ks)
  unfolding select_drawn
  select_drawn-Marked [] s b screen h = Ends-halt waiting
  select_drawn-Marked (escape ∷ ks) s b screen h = Ends-done _ (inl refl)
  select_drawn-Marked (uparrow ∷ ks) s b screen h = select_drawn-Marked ks _ true _ (inl refl)
  select_drawn-Marked (downarrow ∷ ks) s b screen h = select_drawn-Marked ks _ true _ (inl refl)
  select_drawn-Marked (enter ∷ ks) s b screen h =
      Ends-done _ (inr (ap (λ x. x ++ bytes "\n") (redrawn-UpToDate b s screen h)))
  select_drawn-Marked (regular c ∷ ks) s b screen h =
      select_drawn-Marked ks _ (moves c) _
        (letter-UpToDate c s (redrawn prefix choices b s screen) (redrawn-UpToDate b s screen h))
  select_drawn-Marked (backspace ∷ ks) s b screen h =
      select_drawn-Marked ks s false _ (inr (redrawn-UpToDate b s screen h))
  select_drawn-Marked (unknown ∷ ks) s b screen h =
      select_drawn-Marked ks s false _ (inr (redrawn-UpToDate b s screen h))

  -- The loop reads and returns what `select` does.
  select_drawn-select :
      (ks : List Keypress) (selection : ℕ) (b : Bool) (screen : Str)
      → (select_drawn prefix choices selection b screen ks >>= λ r. done (r.0, r.2))
        ≡ select (length choices) selection ks
  unfolding select_drawn select
  select_drawn-select [] s b screen = refl
  select_drawn-select (escape ∷ ks) s b screen = refl
  select_drawn-select (uparrow ∷ ks) s b screen = select_drawn-select ks _ true _
  select_drawn-select (downarrow ∷ ks) s b screen = select_drawn-select ks _ true _
  select_drawn-select (enter ∷ ks) s b screen = refl
  select_drawn-select (regular c ∷ ks) s b screen = select_drawn-select ks _ (moves c) _
  select_drawn-select (backspace ∷ ks) s b screen = select_drawn-select ks s false _
  select_drawn-select (unknown ∷ ks) s b screen = select_drawn-select ks s false _

-- Lines of choices none of which is marked.
abbrev pub unmarked : List Str → Str
unmarked [] = []
unmarked (c ∷ cs) = choice_line false c ++ unmarked cs

choice_lines_past :
    (cs : List Str) (selection i : ℕ) → selection < i → choice_lines selection i cs ≡ unmarked cs
unfolding choice_lines
choice_lines_past [] s i h = refl
choice_lines_past (c ∷ cs) s i h =
    ap₂ (λ b t. choice_line b c ++ t) (ne→nat_eq i s (ground arith))
      (choice_lines_past cs s (i + 1) (omega arith))

-- The lines of a menu with one choice marked, between others that are not.
abbrev pub IsMarkedAt : ℕ → List Str → Str → Type 0
IsMarkedAt k cs lines =
    (before : List Str) × (c : Str) × (after : List Str) × (cs ≡ before ++ (c ∷ after))
    × (length before ≡ k)
    × (lines ≡ unmarked before ++ (choice_line true c ++ unmarked after))

choice_lines-IsMarkedAt :
    (cs : List Str) (s i k : ℕ) → s ≡ i + k → k < length cs → IsMarkedAt k cs (choice_lines s i cs)
unfolding choice_lines
choice_lines-IsMarkedAt [] s i k e h = absurd (omega arith)
choice_lines-IsMarkedAt (c ∷ cs) s i zero e h = (
  [],
  c,
  cs,
  refl,
  refl,
  ap₂ (λ b t. choice_line b c ++ t) (eq→nat_eq i s (omega arith))
      (choice_lines_past cs s (i + 1) (omega arith)),
)
choice_lines-IsMarkedAt (c ∷ cs) s i (suc k) e h =
    let (before, d, after, e1, e2, e3) =
      choice_lines-IsMarkedAt cs s (i + 1) k (omega arith) (omega arith) in
    (
      c ∷ before,
      d,
      after,
      ap (λ x. c ∷ x) e1,
      ap suc e2,
      ap₂ (λ b t. choice_line b c ++ t) (ne→nat_eq i s (ground arith)) e3
          ∙ sym (
              append_assoc (choice_line false c) (unmarked before)
                (choice_line true d ++ unmarked after)),
    )

pub make_selection_drawn-make_selection :
    (prefix : Str) (choices : List Str) (ks : List Keypress)
    → (make_selection_drawn prefix choices ks >>= λ r. done (r.0, r.2))
      ≡ make_selection (length choices) ks
unfolding make_selection_drawn make_selection
make_selection_drawn-make_selection prefix choices ks =
    select_drawn-select prefix choices ks 0 true []

-- Given a menu of at least one choice and fewer than 2 ^ 32: if the user leaves it with a choice, and
-- not by ESC, then the menu stands on the screen with the line of that choice marked, and no other.
pub make_selection_marked :
    (prefix : Str) (choices : List Str) (ks ks' : List Keypress) (choice : ℕ) (screen : Str)
    → 0 < length choices
    → length choices < 2 ^ 32
    → make_selection_drawn prefix choices ks ≡ done (choice, screen, ks')
    → (choice ≡ escape_choice)
      ⊎ ((lines : Str) × IsMarkedAt choice choices lines
          × (screen ≡ (prefix ++ lines ++ hint) ++ bytes "\n"))
unfolding make_selection_drawn menu
make_selection_marked prefix choices ks ks' choice screen some few e =
    elim ((select_drawn-Marked prefix choices ks 0 true [] (inl refl)).at _ e) [
      | inl esc ↦ inl esc
      | inr shown ↦
          elim (make_selection-lt (length choices) some few ks ks' choice (
            sym (make_selection_drawn-make_selection prefix choices ks)
            ∙ ap (λ o. o >>= λ r. done (r.0, r.2)) e)) [
              | inl lt ↦ inr (
                choice_lines choice 0 choices,
                choice_lines-IsMarkedAt choices choice 0 choice (omega arith) lt,
                shown,
              )
              | inr esc ↦ inl esc
            ]
    ]
