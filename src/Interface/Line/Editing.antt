-- ===== src/Interface/Line/Editing.antt =====
-- What a typed line comes to.
use chat.Common.{
  ℕ, ◌<◌, ◌≤◌, ◌≡◌, refl, Bool, true, false, List, [], ◌∷◌, ◌++◌, length, All, arith, if◌then◌else◌,
  Str, done, Within, Within-done, Within-waiting, Within-cases, Within-map,
}
use chat.Interface.Keypress.{
  Keypress, regular, escape, enter, backspace, uparrow, downarrow, unknown,
}
use chat.Interface.Line.{pop_back, fits, read_string, get_user_string, get_user_txt}

-- The keys that a line is written with: all but Enter and ESC.
abbrev pub IsEdit : Keypress → Type 0
IsEdit enter = ⊥
IsEdit escape = ⊥
IsEdit k = Unit {0}

-- What one key makes of the line.
abbrev pub edit : Str → Keypress → Str
edit input backspace = pop_back input
edit input (regular c) = input ++ (c ∷ [])
edit input k = input

abbrev pub edit_all : Str → List Keypress → Str
edit_all input [] = input
edit_all input (k ∷ ks) = edit_all (edit input k) ks

-- A line of keys and Enter returns what the keys wrote, if its length is in range; otherwise the
-- rest is read as a new line.
pub read_string-edit_all :
    (min_len max_len : ℕ) (ks rest : List Keypress) (input : Str)
    → All IsEdit ks
    → read_string min_len max_len input (ks ++ (enter ∷ rest)) ≡ (
        if fits min_len max_len (edit_all input ks)
        then done (edit_all input ks, false, rest)
        else read_string min_len max_len [] rest)
unfolding read_string
read_string-edit_all min_len max_len [] rest input h = refl
read_string-edit_all min_len max_len (regular c ∷ ks) rest input h =
    read_string-edit_all min_len max_len ks rest (input ++ (c ∷ [])) h.1
read_string-edit_all min_len max_len (backspace ∷ ks) rest input h =
    read_string-edit_all min_len max_len ks rest (pop_back input) h.1
read_string-edit_all min_len max_len (uparrow ∷ ks) rest input h =
    read_string-edit_all min_len max_len ks rest input h.1
read_string-edit_all min_len max_len (downarrow ∷ ks) rest input h =
    read_string-edit_all min_len max_len ks rest input h.1
read_string-edit_all min_len max_len (unknown ∷ ks) rest input h =
    read_string-edit_all min_len max_len ks rest input h.1
read_string-edit_all min_len max_len (enter ∷ ks) rest input h = absurd h.0
read_string-edit_all min_len max_len (escape ∷ ks) rest input h = absurd h.0

-- With ESC behind them the line is what the keys wrote, whatever its length.
pub read_string-escape :
    (min_len max_len : ℕ) (ks rest : List Keypress) (input : Str)
    → All IsEdit ks
    → read_string min_len max_len input (ks ++ (escape ∷ rest))
      ≡ done (edit_all input ks, true, rest)
unfolding read_string
read_string-escape min_len max_len [] rest input h = refl
read_string-escape min_len max_len (regular c ∷ ks) rest input h =
    read_string-escape min_len max_len ks rest (input ++ (c ∷ [])) h.1
read_string-escape min_len max_len (backspace ∷ ks) rest input h =
    read_string-escape min_len max_len ks rest (pop_back input) h.1
read_string-escape min_len max_len (uparrow ∷ ks) rest input h =
    read_string-escape min_len max_len ks rest input h.1
read_string-escape min_len max_len (downarrow ∷ ks) rest input h =
    read_string-escape min_len max_len ks rest input h.1
read_string-escape min_len max_len (unknown ∷ ks) rest input h =
    read_string-escape min_len max_len ks rest input h.1
read_string-escape min_len max_len (enter ∷ ks) rest input h = absurd h.0
read_string-escape min_len max_len (escape ∷ ks) rest input h = absurd h.0

-- A returned line was ended by ESC, or its length is in range; and a key at least was taken.
abbrev pub IsLine : ℕ → ℕ → List Keypress → Str × Bool × List Keypress → Type 0
IsLine min_len max_len ks r =
    (r.1 ≡ false → (min_len ≤ length r.0) × (length r.0 ≤ max_len)) × (length r.2 < length ks)

IsLine-cons :
    (min_len max_len : ℕ) (k : Keypress) (ks : List Keypress) (r : Str × Bool × List Keypress)
    → IsLine min_len max_len ks r
    → IsLine min_len max_len (k ∷ ks) r
IsLine-cons min_len max_len k ks r h = (h.0, omega (arith, h.1))

read_string-IsLine :
    (min_len max_len : ℕ) (ks : List Keypress) (input : Str)
    → Within (IsLine min_len max_len ks) (read_string min_len max_len input ks)
unfolding read_string
read_string-IsLine min_len max_len [] input = Within-waiting
read_string-IsLine min_len max_len (enter ∷ ks) input =
    Within-cases (fits min_len max_len input) _ _
      (λ h. Within-done _ (λ e. ground arith, omega arith))
      λ h.
        Within-map (IsLine-cons min_len max_len enter ks) (read_string-IsLine min_len max_len ks [])
read_string-IsLine min_len max_len (escape ∷ ks) input =
    Within-done _ (λ e. absurd (cc), omega arith)
read_string-IsLine min_len max_len (backspace ∷ ks) input =
    Within-map (IsLine-cons min_len max_len backspace ks)
      (read_string-IsLine min_len max_len ks (pop_back input))
read_string-IsLine min_len max_len (regular c ∷ ks) input =
    Within-map (IsLine-cons min_len max_len (regular c) ks)
      (read_string-IsLine min_len max_len ks (input ++ (c ∷ [])))
read_string-IsLine min_len max_len (uparrow ∷ ks) input =
    Within-map (IsLine-cons min_len max_len uparrow ks)
      (read_string-IsLine min_len max_len ks input)
read_string-IsLine min_len max_len (downarrow ∷ ks) input =
    Within-map (IsLine-cons min_len max_len downarrow ks)
      (read_string-IsLine min_len max_len ks input)
read_string-IsLine min_len max_len (unknown ∷ ks) input =
    Within-map (IsLine-cons min_len max_len unknown ks)
      (read_string-IsLine min_len max_len ks input)

-- A line that `get_user_string` returns with no ESC has a length in range, and each call takes a key.
pub get_user_string-IsLine :
    (min_len max_len : ℕ) (ks : List Keypress)
    → Within (IsLine min_len max_len ks) (get_user_string min_len max_len ks)
unfolding get_user_string
get_user_string-IsLine min_len max_len ks = read_string-IsLine min_len max_len ks []

-- The same for a text, whose length does not matter.
pub get_user_txt-edit_all :
    (ks rest : List Keypress) (txt : Str)
    → All IsEdit ks
    → get_user_txt txt (ks ++ (enter ∷ rest)) ≡ done (edit_all txt ks, false, rest)
unfolding get_user_txt
get_user_txt-edit_all [] rest txt h = refl
get_user_txt-edit_all (regular c ∷ ks) rest txt h =
    get_user_txt-edit_all ks rest (txt ++ (c ∷ [])) h.1
get_user_txt-edit_all (backspace ∷ ks) rest txt h = get_user_txt-edit_all ks rest (pop_back txt) h.1
get_user_txt-edit_all (uparrow ∷ ks) rest txt h = get_user_txt-edit_all ks rest txt h.1
get_user_txt-edit_all (downarrow ∷ ks) rest txt h = get_user_txt-edit_all ks rest txt h.1
get_user_txt-edit_all (unknown ∷ ks) rest txt h = get_user_txt-edit_all ks rest txt h.1
get_user_txt-edit_all (enter ∷ ks) rest txt h = absurd h.0
get_user_txt-edit_all (escape ∷ ks) rest txt h = absurd h.0

pub get_user_txt-shrinks :
    (ks : List Keypress) (txt : Str)
    → Within (λ (r : Str × Bool × List Keypress). length r.2 < length ks) (get_user_txt txt ks)
unfolding get_user_txt
get_user_txt-shrinks [] txt = Within-waiting
get_user_txt-shrinks (enter ∷ ks) txt = Within-done _ (omega arith)
get_user_txt-shrinks (escape ∷ ks) txt = Within-done _ (omega arith)
get_user_txt-shrinks (backspace ∷ ks) txt =
    Within-map (λ r h. omega arith) (get_user_txt-shrinks ks (pop_back txt))
get_user_txt-shrinks (regular c ∷ ks) txt =
    Within-map (λ r h. omega arith) (get_user_txt-shrinks ks (txt ++ (c ∷ [])))
get_user_txt-shrinks (uparrow ∷ ks) txt =
    Within-map (λ r h. omega arith) (get_user_txt-shrinks ks txt)
get_user_txt-shrinks (downarrow ∷ ks) txt =
    Within-map (λ r h. omega arith) (get_user_txt-shrinks ks txt)
get_user_txt-shrinks (unknown ∷ ks) txt =
    Within-map (λ r h. omega arith) (get_user_txt-shrinks ks txt)
