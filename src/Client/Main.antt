-- ===== src/Client/Main.antt =====
-- src/client/main.cc, over `inet_pton` and `interface::start`.
use chat.Common.{
  ℕ, ◌≡◌, ◌≢◌, refl, true, false, ◌||◌, Option, none, some, List, [], ◌∷◌, length, if◌then◌else◌,
  Str, Status, Outcome, done, ◌>>=◌,
}
use chat.Server.Startup.{
  CmdlineArgs, help, address, wrong_number, invalid_address, is_help, parse_address, parse_args,
}

-- EXIT_SUCCESS and EXIT_FAILURE
pub data Exit : Type 0 where
  success failure : Exit

abbrev exit_of : Status → Exit
exit_of Status.ok = success
exit_of s = failure

module _ {A : Type 0} (inet_pton : Str → Option ℕ) (start : ℕ → Outcome (Status × A)) where
  abbrev started : ℕ → Outcome Exit
  started n = do r ← start n; done (exit_of r.0)

  -- Behind the checks of the arguments.
  unfoldable pub start_at : Str → Outcome Exit
  start_at a = elim (inet_pton a) [ none ↦ done failure | some n ↦ started n ]

  unfoldable pub main : List Str → Outcome Exit
  unfolding start_at
  main (prog ∷ a ∷ []) = if is_help a then done success else start_at a
  main (prog ∷ a ∷ b ∷ []) = if is_help a || is_help b then done success else done failure
  main argv = done failure

  -- What the client does where the server's `parse_args` tells it apart.
  abbrev pub outcome_of : CmdlineArgs → Outcome Exit
  outcome_of help = done success
  outcome_of (address n) = started n
  outcome_of wrong_number = done failure
  outcome_of invalid_address = done failure

  start_at-parse_address : (a : Str) → start_at a ≡ outcome_of (parse_address inet_pton a)
  unfolding start_at
  start_at-parse_address a =
      elim (inet_pton a)
        as (λ o.
          elim o as (λ o. Outcome Exit) [ none ↦ done failure | some n ↦ started n ]
          ≡ outcome_of (elim o [ none ↦ invalid_address | some n ↦ address n ])) [
            | none ↦ refl
            | some n ↦ refl
          ]

  -- But for two arguments behind the program's name, the client takes its arguments as the server's
  -- `parse_args` does.
  pub main-parse_args :
      (argv : List Str) → length argv ≢ 3 → main argv ≡ outcome_of (parse_args inet_pton argv)
  unfolding main parse_args
  main-parse_args [] h = refl
  main-parse_args (prog ∷ []) h = refl
  main-parse_args (prog ∷ a ∷ []) h =
      elim (is_help a)
        as (λ b.
          (if b then done success else start_at a)
          ≡ outcome_of (if b then help else parse_address inet_pton a)) [
            | true ↦ refl
            | false ↦ start_at-parse_address a
          ]
  main-parse_args (prog ∷ a ∷ b ∷ []) h = absurd (h refl)
  main-parse_args (prog ∷ a ∷ b ∷ c ∷ rest) h = refl

  -- With two arguments of which neither is "-h", the server ignores the second one, and the client fails.
  pub parse_args_third :
      (prog a b : Str)
      → is_help a ≡ false
      → is_help b ≡ false
      → (parse_args inet_pton (prog ∷ a ∷ b ∷ []) ≡ parse_args inet_pton (prog ∷ a ∷ []))
        × (main (prog ∷ a ∷ b ∷ []) ≡ done failure)
  unfolding main parse_args
  parse_args_third prog a b e f = (rw (e, f) refl, rw (e, f) refl)
