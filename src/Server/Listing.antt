-- ===== src/Server/Listing.antt =====
-- The accounts that a pattern lists.
use chat.Common.{◌≡◌, ◌↔◌, true, false, [], ◌∷◌, arith, Str, contains, str_Key}
use chat.Database.{Database, get_usernames}
use chat.Database.View.{user_exists}
use chat.Database.Wildcard.Glob.{Matches}
use chat.Database.Wildcard.Correct.{NoStar, wildcard_match_iff}
use chat.Database.Accounts.{contains-get_usernames}
use chat.Server.{has_star_or_space, username_refused}
use chat.Server.Effects.{NamesAccepted}

no_star : (s : Str) → has_star_or_space s ≡ false → NoStar s
unfolding has_star_or_space
no_star [] h = tt
no_star (c ∷ s) h = (ground arith, no_star s (ground arith))

accepted-NoStar : (a : Str) → username_refused a ≡ false → NoStar a
unfolding username_refused
accepted-NoStar a h = no_star a (ground arith)

-- Where every user has a name that registration accepts, the names listed for a pattern are exactly
-- those of the users whose name the pattern matches.
pub get_usernames-Matches :
    (pat a : Str) (db : Database)
    → NamesAccepted db
    → (contains a (get_usernames pat db) ≡ true) ↔ ((user_exists a db ≡ true) × Matches pat a)
get_usernames-Matches pat a db names = (
  λ h.
      let exists : user_exists a db ≡ true = ground (arith, contains-get_usernames pat a db, h) in
      (
        exists,
        (wildcard_match_iff pat a (accepted-NoStar a (names a exists))).0
            (ground (arith, contains-get_usernames pat a db, h)),
      ),
  λ (exists, m). ground (
    arith,
    contains-get_usernames pat a db,
    exists,
    (wildcard_match_iff pat a (accepted-NoStar a (names a exists))).1 m,
  ),
)
