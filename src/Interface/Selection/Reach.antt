-- ===== src/Interface/Selection/Reach.antt =====
-- Which choices `make_selection` can return.
use native.Mathlib.Nat.{mod-lt, mod-eq_of_lt}
use chat.Common.{
  ℕ, zero, suc, ◌+◌, ◌-◌, ◌%◌, ◌^◌, ◌<◌, ◌≡◌, ◌⊎◌, inl, inr, refl, ◌∙◌, ap, List, [], ◌∷◌, ◌++◌,
  length, arith, done, Within, Within-done, Within-waiting, Within-map,
}
use chat.Interface.Keypress.{
  Keypress, regular, escape, enter, backspace, uparrow, downarrow, unknown,
}
use chat.Interface.Selection.{
  escape_choice, move_up, move_down, move_by_letter, select, make_selection,
}

module _ (n : ℕ) (some_choice : 0 < n) (few : n < 2 ^ 32) where
  move_up-lt : (selection : ℕ) → selection < n → move_up n selection < n
  unfolding move_up
  move_up-lt selection h = ground (arith, mod-lt (selection - 1) some_choice)

  move_down-lt : (selection : ℕ) → selection < n → move_down n selection < n
  unfolding move_down
  move_down-lt selection h = omega (arith, mod-lt ((selection + 1) % 2 ^ 32) some_choice)

  move_by_letter-lt : (c selection : ℕ) → selection < n → move_by_letter n c selection < n
  unfolding move_by_letter
  move_by_letter-lt c selection h = ground (arith, move_up-lt selection, move_down-lt selection)

  abbrev IsChoice : ℕ × List Keypress → Type 0
  IsChoice r = (r.0 < n) ⊎ (r.0 ≡ escape_choice)

  pub select-IsChoice :
      (ks : List Keypress) (selection : ℕ) → selection < n → Within IsChoice (select n selection ks)
  unfolding select
  select-IsChoice [] s h = Within-waiting
  select-IsChoice (escape ∷ ks) s h = Within-done _ (inr refl)
  select-IsChoice (uparrow ∷ ks) s h = select-IsChoice ks (move_up n s) (move_up-lt s h)
  select-IsChoice (downarrow ∷ ks) s h = select-IsChoice ks (move_down n s) (move_down-lt s h)
  select-IsChoice (enter ∷ ks) s h = Within-done _ (inl h)
  select-IsChoice (regular c ∷ ks) s h =
      select-IsChoice ks (move_by_letter n c s) (move_by_letter-lt c s h)
  select-IsChoice (backspace ∷ ks) s h = select-IsChoice ks s h
  select-IsChoice (unknown ∷ ks) s h = select-IsChoice ks s h

  -- Among `n` choices, at least one and fewer than 2 ^ 32, a selection that returns gives one of the
  -- choices, or ESC.
  pub make_selection-lt :
      (ks ks' : List Keypress) (choice : ℕ)
      → make_selection n ks ≡ done (choice, ks')
      → (choice < n) ⊎ (choice ≡ escape_choice)
  unfolding make_selection
  make_selection-lt ks ks' choice e = (select-IsChoice ks 0 some_choice).ends.at (choice, ks') e

  abbrev pub downs : ℕ → List Keypress
  downs zero = []
  downs (suc k) = downarrow ∷ downs k

  select-downs :
      (k selection : ℕ) (rest : List Keypress)
      → selection + k < n
      → select n selection (downs k ++ (enter ∷ rest)) ≡ done (selection + k, rest)
  unfolding select move_down
  select-downs zero s rest h = ap done (ap (λ (t : ℕ). (t, rest)) (omega arith))
  select-downs (suc k) s rest h =
      let step : (s + 1) % 2 ^ 32 % n ≡ (s + 1) % 2 ^ 32 = mod-eq_of_lt (omega arith) in
      ap (λ (t : ℕ). select n t (downs k ++ (enter ∷ rest))) (omega (arith, step))
      ∙ select-downs k (s + 1) rest (omega arith)
      ∙ ap done (ap (λ (t : ℕ). (t, rest)) (omega arith))

  -- Every choice can be made: that of index `k` by `k` presses of Down and Enter.
  pub make_selection-downs :
      (k : ℕ) (rest : List Keypress)
      → k < n
      → make_selection n (downs k ++ (enter ∷ rest)) ≡ done (k, rest)
  unfolding make_selection
  make_selection-downs k rest h =
      select-downs k 0 rest (omega arith) ∙ ap done (ap (λ (t : ℕ). (t, rest)) (omega arith))

-- Each selection takes a key.
pub select-shrinks :
    (n : ℕ) (ks : List Keypress) (selection : ℕ)
    → Within (λ (r : ℕ × List Keypress). length r.1 < length ks) (select n selection ks)
unfolding select
select-shrinks n [] s = Within-waiting
select-shrinks n (escape ∷ ks) s = Within-done _ (omega arith)
select-shrinks n (enter ∷ ks) s = Within-done _ (omega arith)
select-shrinks n (uparrow ∷ ks) s =
    Within-map (λ r h. omega arith) (select-shrinks n ks (move_up n s))
select-shrinks n (downarrow ∷ ks) s =
    Within-map (λ r h. omega arith) (select-shrinks n ks (move_down n s))
select-shrinks n (regular c ∷ ks) s =
    Within-map (λ r h. omega arith) (select-shrinks n ks (move_by_letter n c s))
select-shrinks n (backspace ∷ ks) s = Within-map (λ r h. omega arith) (select-shrinks n ks s)
select-shrinks n (unknown ∷ ks) s = Within-map (λ r h. omega arith) (select-shrinks n ks s)
