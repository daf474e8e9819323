-- ===== src/Database/Wildcard/Glob.antt =====
-- What a pattern matches, with no search order in it: `*` stands for any string, any other byte for
-- itself.
use chat.Common.{ℕ, ◌≡◌, ◌≢◌, ◌↔◌, refl, sym, subst, ◌∙◌, true, [], ◌∷◌, Str, arith, ◌⊎◌, inl, inr}
use chat.Database.Wildcard.{star, only_stars}

pub data Matches : Str → Str → Type 0 where
  finish : Matches [] []
  literal : {x c : ℕ} {p s : Str} → x ≢ star → c ≡ x → Matches p s → Matches (x ∷ p) (c ∷ s)
  skip : {x : ℕ} {p s : Str} → x ≡ star → Matches p s → Matches (x ∷ p) s
  take : {x c : ℕ} {p s : Str} → x ≡ star → Matches (x ∷ p) s → Matches (x ∷ p) (c ∷ s)

pub literal_inv : {x c : ℕ} {p s : Str} → x ≢ star → Matches (x ∷ p) (c ∷ s) → (c ≡ x) × Matches p s
literal_inv h (literal _ e m) = (e, m)
literal_inv h (skip e m) = absurd (h e)
literal_inv h (take e m) = absurd (h e)

pub star_inv :
    {x c : ℕ} {p s : Str}
    → x ≡ star
    → Matches (x ∷ p) (c ∷ s)
    → Matches p (c ∷ s) ⊎ Matches (x ∷ p) s
star_inv h (literal n e m) = absurd (n h)
star_inv h (skip e m) = inl m
star_inv h (take e m) = inr m

pub rename : {x y : ℕ} {p s : Str} → x ≡ y → Matches (x ∷ p) s → Matches (y ∷ p) s
rename {p} {s} e m = subst (λ z. Matches (z ∷ p) s) e m

-- Behind a star the next item of the pattern may be dropped.
pub drop_item : {y x : ℕ} {p s : Str} → y ≡ star → Matches (y ∷ (x ∷ p)) s → Matches (y ∷ p) s
drop_item h (literal n e m) = absurd (n h)
drop_item h (skip e (literal n e' m)) = take h (skip h m)
drop_item h (skip e (skip e' m)) = skip h m
drop_item h (skip e (take e' m)) = take h (rename (e' ∙ sym h) m)
drop_item h (take e m) = take h (drop_item h m)

pub end_inv : {x : ℕ} {p : Str} → Matches (x ∷ p) [] → (x ≡ star) × Matches p []
end_inv (skip e m) = (e, m)

pub only_stars_iff : (p : Str) → (only_stars p ≡ true) ↔ Matches p []
unfolding only_stars
only_stars_iff [] = (λ e. finish, λ m. refl)
only_stars_iff (x ∷ p) = (
  λ e. skip (ground arith) ((only_stars_iff p).0 (ground arith)),
  λ m. ground (arith, end_inv m, (only_stars_iff p).1 (end_inv m).1),
)
