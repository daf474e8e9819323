-- ===== src/Interface/Selection.antt =====
-- `interface::make_selection`. What `read_keypress` will return in turn is a list of keypresses.
pub mod Reach
use chat.Common.{
  ℕ, ◌+◌, ◌-◌, ◌%◌, ◌^◌, ◌||◌, List, [], ◌∷◌, nat_eq, if◌then◌else◌, Outcome, done, halt, waiting,
}
use chat.Interface.Keypress.{
  Keypress, regular, escape, enter, backspace, uparrow, downarrow, unknown,
}

-- `static_cast<user_choice>(-1)`
abbrev pub escape_choice : ℕ
escape_choice = 2 ^ 32 - 1

-- `selection` is a `uint32_t`, and `n`, which is `choices.size()`, has 64 bits.
unfoldable pub move_up : ℕ → ℕ → ℕ
move_up n selection =
    if nat_eq selection 0 then (n + 2 ^ 64 - 1) % 2 ^ 64 % 2 ^ 32 else (selection - 1) % n % 2 ^ 32

unfoldable pub move_down : ℕ → ℕ → ℕ
move_down n selection = (selection + 1) % 2 ^ 32 % n % 2 ^ 32

unfoldable pub move_by_letter : ℕ → ℕ → ℕ → ℕ
unfolding move_up move_down
move_by_letter n c selection =
    if nat_eq c b'w' || nat_eq c b'W'
    then move_up n selection
    else if nat_eq c b's' || nat_eq c b'S'
    then move_down n selection
    else selection

-- The loop.
unfoldable pub select : ℕ → ℕ → List Keypress → Outcome (ℕ × List Keypress)
unfolding move_by_letter move_up move_down
select n selection [] = halt waiting
select n selection (escape ∷ ks) = done (escape_choice, ks)
select n selection (uparrow ∷ ks) = select n (move_up n selection) ks
select n selection (downarrow ∷ ks) = select n (move_down n selection) ks
select n selection (enter ∷ ks) = done (selection, ks)
select n selection (regular c ∷ ks) = select n (move_by_letter n c selection) ks
select n selection (backspace ∷ ks) = select n selection ks
select n selection (unknown ∷ ks) = select n selection ks

-- `n` is the number of the choices.
unfoldable pub make_selection : ℕ → List Keypress → Outcome (ℕ × List Keypress)
unfolding select
make_selection n ks = select n 0 ks
