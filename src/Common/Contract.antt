-- ===== src/Common/Contract.antt =====
-- What holds of a call: of the value that it returns, if it returns, and of the ways in which it
-- does not.
use mathlib.Core.Path.{◌≡◌, refl, subst, ap}
use mathlib.Core.Logic.{◌≢◌}
use mathlib.Core.Bool.{Bool, true, false}
use mathlib.Core.Option.{Option, none, some}
use chat.Common.Tests.{if◌then◌else◌}
use chat.Common.Result.{Status, Outcome, done, fail, halt, Halt, waiting, ◌>>=◌}

pub record Ends {ℓ κ} {A : Type ℓ} (P : A → Type κ) (o : Outcome A) : Type (ℓ ⊔ κ) where
  pub at : (a : A) → o ≡ done a → P a

module _ {ℓ κ} {B : Type ℓ} {P : B → Type κ} where
  pub Ends-done : (b : B) → P b → Ends P (done b)
  Ends-done b h = record { at = λ c e. subst P (unwrap e) h }
    where
      unwrap : {c : B} → done b ≡ done c → b ≡ c
      unwrap e = cc

  pub Ends-halt : (h : Halt) → Ends P (halt h)
  Ends-halt h = record { at = λ b e. cc }

  pub Ends-bind {μ ν} :
      {A : Type μ} {Q : A → Type ν} (m : Outcome A) (f : A → Outcome B)
      → Ends Q m
      → ((a : A) → Q a → Ends P (f a))
      → Ends P (m >>= f)
  Ends-bind (done a) f q k = k a (q.at a refl)
  Ends-bind (fail s) f q k = record { at = λ b e. cc }
  Ends-bind (halt h) f q k = record { at = λ b e. cc }

  pub Ends-if : (b : Bool) (x y : Outcome B) → Ends P x → Ends P y → Ends P (if b then x else y)
  Ends-if true x y hx hy = hx
  Ends-if false x y hx hy = hy

  -- The same with the test's value at hand.
  pub Ends-cases :
      (b : Bool) (x y : Outcome B)
      → (b ≡ true → Ends P x)
      → (b ≡ false → Ends P y)
      → Ends P (if b then x else y)
  Ends-cases true x y hx hy = hx refl
  Ends-cases false x y hx hy = hy refl

pub Ends-option {ℓ κ μ} :
    {A : Type ℓ} {B : Type κ} {P : B → Type μ} (o : Option A) (x : Outcome B) (f : A → Outcome B)
    → Ends P x
    → ((a : A) → Ends P (f a))
    → Ends P (elim o [ none ↦ x | some a ↦ f a ])
Ends-option none x f h k = h
Ends-option (some a) x f h k = k a

-- A weaker statement about the same call.
pub Ends-map {ℓ κ μ} :
    {A : Type ℓ} {P : A → Type κ} {Q : A → Type μ} {o : Outcome A}
    → ((a : A) → P a → Q a)
    → Ends P o
    → Ends Q o
Ends-map f h = record { at = λ a e. f a (h.at a e) }

pub bind_ext {ℓ κ μ} :
    {A : Type ℓ} {B : Type κ} {Q : A → Type μ} (m : Outcome A) (f g : A → Outcome B)
    → Ends Q m
    → ((a : A) → Q a → f a ≡ g a)
    → (m >>= f) ≡ (m >>= g)
bind_ext (done a) f g q k = k a (q.at a refl)
bind_ext (fail s) f g q k = refl
bind_ext (halt h) f g q k = refl

-- If the call halts, then because the environment gives no further event.
pub record Waits {ℓ} {A : Type ℓ} (o : Outcome A) : Type ℓ where
  pub only : (h : Halt) → o ≡ halt h → h ≡ waiting

halt_inj {ℓ} : {A : Type ℓ} {g h : Halt} → ◌≡◌ {A = Outcome A} (halt g) (halt h) → g ≡ h
halt_inj e = cc

-- If the call halts, then for one of the reasons of `P`.
pub record HaltsIn {ℓ κ} {A : Type ℓ} (P : Halt → Type κ) (o : Outcome A) : Type (ℓ ⊔ κ) where
  pub only : (h : Halt) → o ≡ halt h → P h

module _ {κ} {P : Halt → Type κ} where
  pub HaltsIn-done {ℓ} : {A : Type ℓ} (o : Outcome A) (a : A) → o ≡ done a → HaltsIn P o
  HaltsIn-done o a e = record { only = λ h q. cc }

  pub HaltsIn-never {ℓ} : {A : Type ℓ} (o : Outcome A) → ((h : Halt) → o ≢ halt h) → HaltsIn P o
  HaltsIn-never o n = record { only = λ h q. absurd (n h q) }

  pub HaltsIn-halt {ℓ} : {A : Type ℓ} (g : Halt) → P g → HaltsIn {A = A} P (halt g)
  HaltsIn-halt g p = record { only = λ h q. subst P (halt_inj q) p }

  pub HaltsIn-fail {ℓ} : {A : Type ℓ} (s : Status) → HaltsIn {A = A} P (fail s)
  HaltsIn-fail s = record { only = λ h q. cc }

  pub HaltsIn-bind {ℓ μ} :
      {A : Type ℓ} {B : Type μ} (m : Outcome A) (f : A → Outcome B)
      → HaltsIn P m
      → ((a : A) → m ≡ done a → HaltsIn P (f a))
      → HaltsIn P (m >>= f)
  HaltsIn-bind (done a) f n k = k a refl
  HaltsIn-bind (fail s) f n k = record { only = λ h e. cc }
  HaltsIn-bind (halt g) f n k = record { only = λ h e. n.only h (ap halt (halt_inj e)) }

  pub HaltsIn-if {ℓ} :
      {A : Type ℓ} (b : Bool) (x y : Outcome A)
      → HaltsIn P x
      → HaltsIn P y
      → HaltsIn P (if b then x else y)
  HaltsIn-if true x y hx hy = hx
  HaltsIn-if false x y hx hy = hy

  pub HaltsIn-option {ℓ μ} :
      {A : Type ℓ} {B : Type μ} (o : Option A) (x : Outcome B) (f : A → Outcome B)
      → HaltsIn P x
      → ((a : A) → HaltsIn P (f a))
      → HaltsIn P (elim o [ none ↦ x | some a ↦ f a ])
  HaltsIn-option none x f h k = h
  HaltsIn-option (some a) x f h k = k a

-- Both: the call halts only to wait, and `P` holds of what it returns.
pub record Within {ℓ κ} {A : Type ℓ} (P : A → Type κ) (o : Outcome A) : Type (ℓ ⊔ κ) where
  pub ends : Ends P o
  pub waits : Waits o

module _ {ℓ κ} {B : Type ℓ} {P : B → Type κ} where
  pub Within-done : (b : B) → P b → Within P (done b)
  Within-done b h = record { ends = Ends-done b h; waits = record { only = λ g e. cc } }

  pub Within-waiting : Within P (halt waiting)
  Within-waiting = record { ends = Ends-halt waiting; waits = record { only = λ g e. cc } }

  pub Within-bind {μ ν} :
      {A : Type μ} {Q : A → Type ν} (m : Outcome A) (f : A → Outcome B)
      → Within Q m
      → ((a : A) → Q a → Within P (f a))
      → Within P (m >>= f)
  Within-bind (done a) f q k = k a (q.ends.at a refl)
  Within-bind (fail s) f q k = record {
    ends = record { at = λ b e. cc };
    waits = record { only = λ h e. cc };
  }
  Within-bind (halt g) f q k = record {
    ends = record { at = λ b e. cc };
    waits = record { only = λ h e. q.waits.only h (ap halt (halt_inj e)) };
  }

  pub Within-cases :
      (b : Bool) (x y : Outcome B)
      → (b ≡ true → Within P x)
      → (b ≡ false → Within P y)
      → Within P (if b then x else y)
  Within-cases true x y hx hy = hx refl
  Within-cases false x y hx hy = hy refl

pub Within-map {ℓ κ μ} :
    {A : Type ℓ} {P : A → Type κ} {Q : A → Type μ} {o : Outcome A}
    → ((a : A) → P a → Q a)
    → Within P o
    → Within Q o
Within-map f h = record { ends = Ends-map f h.ends; waits = h.waits }

pub Within-both {ℓ κ μ} :
    {A : Type ℓ} {P : A → Type κ} {Q : A → Type μ} {o : Outcome A}
    → Within P o
    → Within Q o
    → Within (λ (a : A). P a × Q a) o
Within-both f g = record {
  ends = record { at = λ a e. (f.ends.at a e, g.ends.at a e) };
  waits = f.waits;
}
