-- ===== src/Database/Accounts.antt =====
-- `login`, `registration` and `get_usernames`.
use chat.Common.{
  ◌≡◌, ◌⊎◌, ◌↔◌, refl, false, ◌&&◌, none, some, List, [], ◌∷◌, arith, Str, str_eq, str_eq_iff,
  str_Key, nat_Key, nat_eq, if◌then◌else◌, lookup, unordered, is_some, contains, contains-cons,
  lookup-insert, Option-cases, Bool-cases, inl, inr, Status,
}
use chat.Database.{ThreadId, User, Database, login, registration, get_usernames, matching}
use chat.Database.Wildcard.{wildcard_match}
use chat.Database.View.{user_exists}

module _ (t : ThreadId) (a p : Str) (db : Database) where
  -- Login succeeds exactly for a thread that is logged out and the name and password of a user.
  pub login-ok_iff : ((login t a p db).0 ≡ Status.ok) ↔ (
      (lookup t db.threads_ ≡ none)
      × ((u : User) × (lookup a db.users_ ≡ some u) × (u.password_ ≡ p)))
  unfolding login
  login-ok_iff = (accepted, given)
    where
      accepted :
          (login t a p db).0 ≡ Status.ok
          → (lookup t db.threads_ ≡ none)
            × ((u : User) × (lookup a db.users_ ≡ some u) × (u.password_ ≡ p))
      accepted h = elim (Option-cases (lookup a db.users_)) [
        | inl e ↦ absurd (ground arith)
        | inr (u, e) ↦ (ground arith, (u, e, ground (arith, str_eq_iff p u.password_)))
      ]

      given :
          (lookup t db.threads_ ≡ none)
            × ((u : User) × (lookup a db.users_ ≡ some u) × (u.password_ ≡ p))
          → (login t a p db).0 ≡ Status.ok
      given (out, (u, e, right)) = ground (arith, str_eq_iff p u.password_)

  -- A successful login lets the thread act for the user, and changes nothing for other threads, the
  -- users or the names taken; a failed one changes nothing at all.
  pub login_effect :
      (((login t a p db).0 ≡ Status.ok)
        × ((s : ThreadId)
            → lookup s (login t a p db).1.threads_
              ≡ (if nat_eq t s then some a else lookup s db.threads_))
        × ((login t a p db).1.users_ ≡ db.users_)
        × ((login t a p db).1.historical_users_ ≡ db.historical_users_))
      ⊎ (login t a p db ≡ (Status.error, db))
  unfolding login
  login_effect = elim (Option-cases (lookup t db.threads_)) [
    | inr (b, e) ↦ inr (ground arith)
    | inl out ↦ elim (Option-cases (lookup a db.users_)) [
      | inl e ↦ inr (ground arith)
      | inr (u, e) ↦ elim (Bool-cases (str_eq p u.password_)) [
        | inr wrong ↦ inr (ground arith)
        | inl right ↦ inl (
          ground arith,
          λ s. ground (arith, lookup-insert unordered t s a db.threads_ out),
          ground arith,
          ground arith,
        )
      ]
    ]
  ]

contains-matching :
    (pat a : Str) (us : List (Str × User))
    → contains a (matching pat us) ≡ (is_some (lookup a us) && wildcard_match pat a)
unfolding contains matching lookup
contains-matching pat a [] = refl
contains-matching pat a ((b, u) ∷ us) =
    ground (arith, contains-matching pat a us, contains-cons a b (matching pat us), str_eq_iff b a)

-- The names listed for a pattern are the names of users that match it.
pub contains-get_usernames :
    (pat a : Str) (db : Database)
    → contains a (get_usernames pat db) ≡ (user_exists a db && wildcard_match pat a)
unfolding get_usernames
contains-get_usernames pat a db = contains-matching pat a db.users_

-- Registration succeeds exactly for a name that no user has or ever had.
pub registration-ok_iff :
    (a p : Str) (db : Database)
    → ((registration a p db).0 ≡ Status.ok)
      ↔ ((user_exists a db ≡ false) × (contains a db.historical_users_ ≡ false))
unfolding registration
registration-ok_iff a p db = (λ h. ground arith, λ h. ground arith)
