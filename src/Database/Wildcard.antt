-- ===== src/Database/Wildcard.antt =====
-- `database::wildcard_match`. The indices stand as the rest of the string from there on.
pub mod Glob
pub mod Correct
use chat.Common.{
  ℕ, zero, suc, ◌+◌, ◌*◌, Bool, true, false, Option, none, some, List, [], ◌∷◌, length, nat_eq,
  if◌then◌else◌, Str, Outcome, done,
}

abbrev pub star : ℕ
star = b'*'

-- `last_star` and `saved_target`: the pattern behind the last star, and the target from where the
-- star began. `none` is `static_cast<size_t>(-1)`.
abbrev pub Saved : Type 0
Saved = Option (Str × Str)

-- The second loop and the final test: nothing but stars is left of the pattern.
unfoldable pub only_stars : Str → Bool
only_stars [] = true
only_stars (c ∷ p) = if nat_eq c star then only_stars p else false

abbrev pub Round : Type 0
Round = Str → Str → Saved → Option Bool

-- The last two branches of the loop. A start past the end of the target would leave the loop.
unfoldable pub backtrack : Saved → Round → Option Bool
backtrack none next = some false
backtrack (some (p, [])) next = some (only_stars p)
backtrack (some (p, c ∷ s)) next = next p s (some (p, s))

-- One round of the `while` loop on each unit of fuel; `none` means that the fuel ran out.
unfoldable pub loop : ℕ → Round
loop zero p s saved = none
loop (suc f) p [] saved = some (only_stars p)
loop (suc f) [] (c ∷ s) saved = backtrack saved (loop f)
loop (suc f) (x ∷ p) (c ∷ s) saved =
    let onward = loop f p s saved in
    let open_star = loop f p (c ∷ s) (some (p, c ∷ s)) in
    let back = backtrack saved (loop f) in
    if nat_eq c x then onward else if nat_eq x star then open_star else back

-- Every round moves the pattern on, or moves the start of the last star on.
abbrev pub rounds : Str → Str → ℕ
rounds p s = (length s + 1) * (length p + 1) + 1

abbrev answer : Option Bool → Bool
answer none = false
answer (some b) = b

unfoldable pub wildcard_match : Str → Str → Bool
wildcard_match p s = answer (loop (rounds p s) p s none)
