-- ===== src/Examples/Accounts.antt =====
-- Two users, alice and bob, each logged in on a thread of his own, and the database that holds them.
use chat.Common.{
  ◌≡◌, ◌≢◌, refl, true, false, some, List, [], ◌∷◌, Str, lookup, insert, contains, str_eq, str_lt,
  arith, nat_Key, str_Key, str_eq_iff, Bool-cases, inl, inr, subst, if◌then◌else◌,
}
use chat.Database.{Database, empty, login, registration}
use chat.Database.View.{user_exists}
use chat.Database.Invariant.{WellFormed, empty-WellFormed}
use chat.Database.Deletion.{WalksKeys}
use chat.Database.Steps.{Reach, here, next, login_step, registration_step, Reach-WellFormed}
use chat.Server.{username_refused, has_star_or_space}
use chat.Server.Effects.{NamesAccepted}

abbrev pub alice : Str
alice = b'a' ∷ b'l' ∷ b'i' ∷ b'c' ∷ b'e' ∷ []

abbrev pub bobby : Str
bobby = b'b' ∷ b'o' ∷ b'b' ∷ b'b' ∷ b'y' ∷ []

abbrev pub secret : Str
secret = b'1' ∷ b'2' ∷ b'3' ∷ b'4' ∷ []

abbrev pub hello : Str
hello = b'h' ∷ b'i' ∷ []

-- `order` that walks the entries as they are stored
abbrev pub as_stored : List Str → List Str
as_stored ks = ks

pub as_stored-WalksKeys : WalksKeys as_stored
as_stored-WalksKeys ks k = refl

unfoldable pub registered_both : Database
unfolding registration
registered_both = (registration bobby secret (registration alice secret empty).1).1

unfoldable pub both_logged_in : Database
unfolding registered_both login
both_logged_in = (login 2 bobby secret (login 1 alice secret registered_both).1).1

pub both-Reach : Reach empty both_logged_in
unfolding both_logged_in registered_both
both-Reach =
    next
      (next (next (next here (registration_step alice secret)) (registration_step bobby secret))
        (login_step 1 alice secret))
      (login_step 2 bobby secret)

pub both-WellFormed : WellFormed both_logged_in
both-WellFormed = Reach-WellFormed empty-WellFormed both-Reach

pub registered_both-WellFormed : WellFormed registered_both
unfolding registered_both
registered_both-WellFormed =
    Reach-WellFormed empty-WellFormed
      (next (next here (registration_step alice secret)) (registration_step bobby secret))

pub alice_acts : lookup 1 both_logged_in.threads_ ≡ some alice
unfolding both_logged_in registered_both login registration lookup insert str_eq str_lt contains
alice_acts = refl

pub bobby_acts : lookup 2 both_logged_in.threads_ ≡ some bobby
unfolding both_logged_in registered_both login registration lookup insert str_eq str_lt contains
bobby_acts = refl

pub alice_exists : user_exists alice both_logged_in ≡ true
unfolding both_logged_in registered_both login registration lookup insert str_eq str_lt contains
alice_exists = refl

pub bobby_exists : user_exists bobby both_logged_in ≡ true
unfolding both_logged_in registered_both login registration lookup insert str_eq str_lt contains
bobby_exists = refl

alice_differs : str_eq alice bobby ≡ false
unfolding str_eq
alice_differs = refl

pub alice-ne-bobby : alice ≢ bobby
alice-ne-bobby e = absurd (cc (alice_differs, (str_eq_iff alice bobby).1 e))

alice_accepted : username_refused alice ≡ false
unfolding username_refused has_star_or_space
alice_accepted = refl

bobby_accepted : username_refused bobby ≡ false
unfolding username_refused has_star_or_space
bobby_accepted = refl

user_of_both :
    (a : Str)
    → user_exists a both_logged_in
      ≡ (if str_eq alice a then true else if str_eq bobby a then true else false)
unfolding both_logged_in registered_both login registration lookup insert str_eq str_lt contains
user_of_both a = ground arith

pub both-NamesAccepted : NamesAccepted both_logged_in
both-NamesAccepted a h = elim (Bool-cases (str_eq alice a)) [
  | inl e ↦ subst (λ x. username_refused x ≡ false) ((str_eq_iff alice a).0 e) alice_accepted
  | inr n ↦
      subst (λ x. username_refused x ≡ false)
        ((str_eq_iff bobby a).0 (ground (arith, user_of_both a, h, n))) bobby_accepted
]
