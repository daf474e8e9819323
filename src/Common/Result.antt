-- ===== src/Common/Result.antt =====
-- include/common/common.h, and how a call ends.
use mathlib.Core.Path.{◌≡◌, refl}
use mathlib.Core.Bool.{Bool, true, false, not}
use mathlib.Core.Option.{Option, none, some}
use chat.Common.Tests.{if◌then◌else◌}

-- `enum class status`
pub data Status : Type 0 where
  ok error send_error receive_error closed_connection header_error body_error : Status

-- Why a call does not return. The first three are faults of the code: a read outside a buffer, an
-- uncaught `std::out_of_range`, and a loop that goes on from an erased element. `waiting` is none:
-- the environment gives no further event. `out_of_fuel` belongs to the model only.
pub data Halt : Type 0 where
  out_of_bounds out_of_range dangling_iterator waiting out_of_fuel : Halt

-- `fail s` is an early `return s` of a status other than `ok`, with the out-parameters as they were.
pub data Outcome {ℓ} (A : Type ℓ) : Type ℓ where
  done : A → Outcome A
  fail : Status → Outcome A
  halt : Halt → Outcome A

pub done_inj {ℓ} : {A : Type ℓ} {a b : A} → done a ≡ done b → a ≡ b
done_inj h = cc

infixl 5 ◌>>=◌
abbrev pub ◌>>=◌ {ℓ κ} : {A : Type ℓ} {B : Type κ} → Outcome A → (A → Outcome B) → Outcome B
done a >>= f = f a
fail s >>= f = fail s
halt h >>= f = halt h

-- A call that returns, and the one that goes on from it.
pub bind_done {ℓ κ} :
    {A : Type ℓ} {B : Type κ} (o : Outcome A) (f : A → Outcome B) (b : B)
    → (o >>= f) ≡ done b
    → (a : A) × (o ≡ done a) × (f a ≡ done b)
bind_done (done a) f b e = (a, refl, e)
bind_done (fail s) f b e = absurd (cc)
bind_done (halt h) f b e = absurd (cc)

-- A call that goes on to return halts only where it does.
pub halted_alike {ℓ κ} :
    {A : Type ℓ} {B : Type κ} (o : Outcome A) (f : A → B) (h : Halt)
    → (o >>= λ a. done (f a)) ≡ halt h
    → o ≡ halt h
halted_alike (done a) f h e = absurd (cc)
halted_alike (fail s) f h e = absurd (cc)
halted_alike (halt k) f h e = cc

-- Branch by branch, how a call goes on from another.
module _ {ℓ κ} {A : Type ℓ} {B : Type κ} (f : A → Outcome B) where
  pub answered-if :
      (b : Bool) (x y : Outcome B) (m n : Outcome A)
      → x ≡ (m >>= f)
      → y ≡ (n >>= f)
      → (if b then x else y) ≡ ((if b then m else n) >>= f)
  answered-if true x y m n p q = p
  answered-if false x y m n p q = q

  -- The same for a guard that returns early.
  pub answered_unless :
      (b : Bool) (x y : Outcome B) (m n : Outcome A)
      → x ≡ (m >>= f)
      → y ≡ (n >>= f)
      → (if not b then x else y) ≡ ((if b then n else m) >>= f)
  answered_unless true x y m n p q = q
  answered_unless false x y m n p q = p

  pub answered-bind {μ} :
      {C : Type μ} (m : Outcome C) (g : C → Outcome B) (h : C → Outcome A)
      → ((c : C) → m ≡ done c → g c ≡ (h c >>= f))
      → (m >>= g) ≡ ((m >>= h) >>= f)
  answered-bind (done c) g h e = e c refl
  answered-bind (fail s) g h e = refl
  answered-bind (halt k) g h e = refl

  pub answered-option {μ} :
      {C : Type μ} (o : Option C) (x : Outcome B) (y : C → Outcome B) (m : Outcome A)
      (n : C → Outcome A)
      → x ≡ (m >>= f)
      → ((c : C) → y c ≡ (n c >>= f))
      → elim o [ none ↦ x | some c ↦ y c ] ≡ (elim o [ none ↦ m | some c ↦ n c ] >>= f)
  answered-option none x y m n p q = p
  answered-option (some c) x y m n p q = q c
