-- ===== src/Interface/Line.antt =====
-- `interface::get_user_string` and `interface::get_user_txt`: a line that the user types.
pub mod Editing
use chat.Common.{
  ℕ, Bool, true, false, ◌&&◌, List, [], ◌∷◌, ◌++◌, length, leb, if◌then◌else◌, Str, Outcome, done,
  halt, waiting,
}
use chat.Interface.Keypress.{
  Keypress, regular, escape, enter, backspace, uparrow, downarrow, unknown,
}

-- `pop_back`, behind a test that the string is not empty
unfoldable pub pop_back : Str → Str
pop_back [] = []
pop_back (c ∷ []) = []
pop_back (c ∷ (d ∷ s)) = c ∷ pop_back (d ∷ s)

abbrev pub fits : ℕ → ℕ → Str → Bool
fits min_len max_len input = leb min_len (length input) && leb (length input) max_len

-- The loop. The result is the line, and whether ESC was hit.
unfoldable pub read_string : ℕ → ℕ → Str → List Keypress → Outcome (Str × Bool × List Keypress)
unfolding pop_back
read_string min_len max_len input [] = halt waiting
read_string min_len max_len input (backspace ∷ ks) = read_string min_len max_len (pop_back input) ks
read_string min_len max_len input (enter ∷ ks) =
    let again = read_string min_len max_len [] ks in
    if fits min_len max_len input then done (input, false, ks) else again
read_string min_len max_len input (regular c ∷ ks) =
    read_string min_len max_len (input ++ (c ∷ [])) ks
read_string min_len max_len input (escape ∷ ks) = done (input, true, ks)
read_string min_len max_len input (uparrow ∷ ks) = read_string min_len max_len input ks
read_string min_len max_len input (downarrow ∷ ks) = read_string min_len max_len input ks
read_string min_len max_len input (unknown ∷ ks) = read_string min_len max_len input ks

unfoldable pub get_user_string : ℕ → ℕ → List Keypress → Outcome (Str × Bool × List Keypress)
unfolding read_string
get_user_string min_len max_len ks = read_string min_len max_len [] ks

-- The first argument is `partial_txt_`, which the caller clears.
unfoldable pub get_user_txt : Str → List Keypress → Outcome (Str × Bool × List Keypress)
unfolding pop_back
get_user_txt txt [] = halt waiting
get_user_txt txt (backspace ∷ ks) = get_user_txt (pop_back txt) ks
get_user_txt txt (enter ∷ ks) = done (txt, false, ks)
get_user_txt txt (regular c ∷ ks) = get_user_txt (txt ++ (c ∷ [])) ks
get_user_txt txt (escape ∷ ks) = done (txt, true, ks)
get_user_txt txt (uparrow ∷ ks) = get_user_txt txt ks
get_user_txt txt (downarrow ∷ ks) = get_user_txt txt ks
get_user_txt txt (unknown ∷ ks) = get_user_txt txt ks
