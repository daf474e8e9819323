-- ===== src/Database/Wildcard/Correct.antt =====
-- The backtracking loop decides `Matches` on targets that hold no star.
use chat.Common.{
  ℕ, zero, suc, ◌+◌, ◌*◌, ◌≤◌, ◌<◌, ◌≡◌, ◌≢◌, ◌↔◌, refl, sym, subst, if_cases, Bool, true, false,
  Option, none, some, [], ◌∷◌, length, All, nat_eq, Str, arith, inl, inr, nat_eq_iff, eq→nat_eq,
}
use chat.Database.Wildcard.{
  star, Saved, only_stars, Round, backtrack, loop, rounds, answer, wildcard_match,
}
use chat.Database.Wildcard.Glob.{
  Matches, literal, skip, take, literal_inv, star_inv, drop_item, end_inv, only_stars_iff,
}

abbrev pub NoStar : Str → Type 0
NoStar = All (λ c. c ≢ star)

-- The loop ended with an answer, and the answer is right about `G`.
abbrev Decides : Type 0 → Option Bool → Type 0
Decides G (some true) = G
Decides G (some false) = ¬ G
Decides G none = ⊥

from_answer : {G : Type 0} (r : Option Bool) → Decides G r → (answer r ≡ true) ↔ G
from_answer none h = absurd h
from_answer (some true) h = (λ e. h, λ g. refl)
from_answer (some false) h = (λ e. cc, λ g. absurd (h g))

answer-Decides : {G : Type 0} (b : Bool) → (b ≡ true) ↔ G → Decides G (some b)
answer-Decides true e = e.0 refl
answer-Decides false e = λ g. cc (e.1 g)

-- `star ∷ bp` against `bs`, for the star that the loop would go back to.
abbrev pub FromStar : Str → Str → Type 0
FromStar p s = Matches (star ∷ p) s

-- A star that is tried on `c ∷ s` without success takes `c`.
must_take : {c : ℕ} {p s : Str} → ¬ Matches p (c ∷ s) → FromStar p (c ∷ s) → FromStar p s
must_take no_match m = elim (star_inv refl m) [ inl d ↦ absurd (no_match d) | inr d ↦ d ]

stuck :
    (x c : ℕ) (p s : Str) → nat_eq c x ≡ false → nat_eq x star ≡ false → ¬ Matches (x ∷ p) (c ∷ s)
stuck x c p s differ n d = cc (differ, eq→nat_eq c x (literal_inv other d).0)
  where
    other : x ≢ star
    other = λ e. cc (n, eq→nat_eq x star e)

module _ (G : Type 0) (k : ℕ) where
  -- What the saved star means; `m` bounds the target that is left to go back to.
  abbrev Back : ℕ → Str → Str → Saved → Type 0
  Back m p s none = G → Matches p s
  Back m p s (some (bp, bs)) =
      (G ↔ FromStar bp bs)
      × (Matches bp bs → Matches p s)
      × (length s ≤ length bs)
      × (length bs ≤ m)
      × (length bp < k)
      × NoStar bs

  record Inv (f m : ℕ) (p s : Str) (saved : Saved) : Type 0 where
    now : Matches p s → G
    later : G → FromStar p s
    back : Back m p s saved
    plain : NoStar s
    target_bound : length s ≤ m
    pattern_bound : length p < k
    fuel : m * k + length p < f

  -- A fresh start behind a star.
  Inv-restart :
      {f m : ℕ} {p s : Str}
      → G ↔ FromStar p s
      → NoStar s
      → length s ≤ m
      → length p < k
      → m * k + length p < f
      → Inv f m p s (some (p, s))
  Inv-restart e plain hs hp hf = record {
    now = λ d. e.1 (skip refl d);
    later = e.0;
    back = (e, λ d. d, omega arith, hs, hp, plain);
    plain = plain;
    target_bound = hs;
    pattern_bound = hp;
    fuel = hf;
  }

  Back-literal :
      (m x c : ℕ) (p s : Str) (saved : Saved)
      → x ≢ star
      → Back m (x ∷ p) (c ∷ s) saved
      → Back m p s saved
  Back-literal m x c p s none n h = λ g. (literal_inv n (h g)).1
  Back-literal m x c p s (some (bp, bs)) n (e, down, shorter, hs, hp, plain) =
      (e, λ d. (literal_inv n (down d)).1, omega arith, hs, hp, plain)

  later-literal : (x c : ℕ) (p s : Str) → x ≢ star → FromStar (x ∷ p) (c ∷ s) → FromStar p s
  later-literal x c p s n m = elim (star_inv refl m) [
    | inl d ↦ skip refl (literal_inv n d).1
    | inr d ↦ drop_item refl d
  ]

  Inv-literal :
      {f m x c : ℕ} {p s : Str} {saved : Saved}
      → Inv (suc f) m (x ∷ p) (c ∷ s) saved
      → c ≡ x
      → Inv f m p s saved
  Inv-literal {m} {x} {c} {p} {s} {saved} i e = record {
    now = λ d. i.now (literal n e d);
    later = λ g. later-literal x c p s n (i.later g);
    back = Back-literal m x c p s saved n i.back;
    plain = i.plain.1;
    target_bound = omega arith;
    pattern_bound = omega arith;
    fuel = omega arith;
  }
    where
      n : x ≢ star
      n = λ h. i.plain.0 (omega (arith, e, h))

  Inv-star :
      {f m x c : ℕ} {p s : Str} {saved : Saved}
      → Inv (suc f) m (x ∷ p) (c ∷ s) saved
      → x ≡ star
      → Inv f m p (c ∷ s) (some (p, c ∷ s))
  Inv-star {x} {c} {p} {s} i e =
      Inv-restart
        (
          λ g. drop_item refl (i.later g),
          λ d. i.now (subst (λ z. Matches (z ∷ p) (c ∷ s)) (sym e) d),
        )
        i.plain i.target_bound (omega arith) (omega arith)

  backtrack-Decides :
      {f c : ℕ} {p s : Str} (m : ℕ) (saved : Saved) (next : Round)
      → ((m' : ℕ) (p' s' : Str) (b : Saved) → Inv f m' p' s' b → Decides G (next p' s' b))
      → Inv (suc f) m p (c ∷ s) saved
      → ¬ Matches p (c ∷ s)
      → Decides G (backtrack saved next)
  unfolding backtrack
  backtrack-Decides m none next ih i no_match = λ g. no_match (i.back g)
  backtrack-Decides m (some (bp, [])) next ih i no_match = absurd (omega arith)
  backtrack-Decides zero (some (bp, x ∷ bs)) next ih i no_match = absurd (omega arith)
  backtrack-Decides (suc m) (some (bp, x ∷ bs)) next ih i no_match =
      let (e, down, _, _, _, plain) = i.back in
      ih m bp bs (some (bp, bs)) (
        Inv-restart (λ g. must_take (λ d. no_match (down d)) (e.0 g), λ d. e.1 (take refl d))
          plain.1 (omega arith) (omega arith) (omega arith))

  loop-Decides :
      (f m : ℕ) (p s : Str) (saved : Saved) → Inv f m p s saved → Decides G (loop f p s saved)
  unfolding loop
  loop-Decides zero m p s saved i = absurd (omega arith)
  loop-Decides (suc f) m p [] saved i =
      answer-Decides (only_stars p)
        (λ h. i.now ((only_stars_iff p).0 h), λ g. (only_stars_iff p).1 (end_inv (i.later g)).1)
  loop-Decides (suc f) m [] (c ∷ s) saved i =
      backtrack-Decides m saved (loop f) (loop-Decides f) i λ d. elim d [ ]
  loop-Decides (suc f) m (x ∷ p) (c ∷ s) saved i =
      if_cases (Decides G) (nat_eq c x) _ _
        (λ same. loop-Decides f m p s saved (Inv-literal i ((nat_eq_iff c x).0 same)))
        λ differ.
          if_cases (Decides G) (nat_eq x star) _ _
            (λ e.
              loop-Decides f m p (c ∷ s) (some (p, c ∷ s)) (Inv-star i ((nat_eq_iff x star).0 e)))
            λ n. backtrack-Decides m saved (loop f) (loop-Decides f) i (stuck x c p s differ n)

-- For a target without stars, `wildcard_match` answers true exactly if the target matches the
-- pattern, so that the fuel is enough for every match.
pub wildcard_match_iff : (p s : Str) → NoStar s → (wildcard_match p s ≡ true) ↔ Matches p s
unfolding wildcard_match
wildcard_match_iff p s plain = from_answer (loop (rounds p s) p s none) (
    loop-Decides (Matches p s) (length p + 1) _ (length s) p s none (record {
      now = λ d. d;
      later = skip refl;
      back = λ d. d;
      plain = plain;
      target_bound = omega arith;
      pattern_bound = omega arith;
      fuel = omega arith;
    }))
