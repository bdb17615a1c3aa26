-- ===== src/Base/Fault.antt =====
-- Code that can fault: `none` is undefined behaviour, or a loop that has used up its fuel.
use mathlib.Core.Option.{Option, none, some}
use hydro_lo_ra_shield.Base.Tests.{if◌then◌else◌}
use mathlib.Core.Bool.{Bool, true, false}
use mathlib.Core.Path.{◌≡◌, refl, subst}

infixl 5 ◌>>=◌
abbrev pub ◌>>=◌ {ℓ κ} : {A : Type ℓ} {B : Type κ} → Option A → (A → Option B) → Option B
none >>= f = none
some a >>= f = f a

-- What a result, if there is one, is like.
abbrev pub Returns {ℓ κ} : {A : Type ℓ} → (A → Type κ) → Option A → Type κ
Returns P none = Unit
Returns P (some a) = P a

module _ {ℓ κ} {A : Type ℓ} {B : Type ℓ} where
  pub Returns->>= :
      (P : B → Type κ) (r : Option A) (f : A → Option B)
      → ((a : A) → r ≡ some a → Returns P (f a))
      → Returns P (r >>= f)
  Returns->>= P none f h = tt
  Returns->>= P (some a) f h = h a refl

module _ {ℓ κ} {A : Type ℓ} where
  pub Returns_lem : (P : A → Type κ) (r : Option A) {a : A} → Returns P r → r ≡ some a → P a
  Returns_lem P r h e = subst (Returns P) e h

  pub Returns-weaken :
      (Q P : A → Type κ) (r : Option A) → Returns Q r → ((a : A) → Q a → P a) → Returns P r
  Returns-weaken Q P none h k = tt
  Returns-weaken Q P (some a) h k = k a h

  pub Returns-either :
      (P : A → Type κ) (b : Bool) (r t : Option A)
      → Returns P r
      → Returns P t
      → Returns P (if b then r else t)
  Returns-either P true r t h k = h
  Returns-either P false r t h k = k

module _ {ℓ κ} {A : Type ℓ} {B : Type ℓ} where
  pub Returns-then :
      (Q : A → Type κ) (P : B → Type κ) (r : Option A) (f : A → Option B)
      → Returns Q r
      → ((a : A) → Q a → Returns P (f a))
      → Returns P (r >>= f)
  Returns-then Q P none f h k = tt
  Returns-then Q P (some a) f h k = k a h

-- There is a result, and it is like this.
abbrev pub Succeeds {ℓ} : {A : Type ℓ} → (A → Type 0) → Option A → Type 0
Succeeds P none = ⊥
Succeeds P (some a) = P a

module _ {ℓ} {A : Type ℓ} {B : Type ℓ} where
  pub Succeeds-then :
      (Q : A → Type 0) (P : B → Type 0) (r : Option A) (f : A → Option B)
      → Succeeds Q r
      → ((a : A) → r ≡ some a → Q a → Succeeds P (f a))
      → Succeeds P (r >>= f)
  Succeeds-then Q P none f h k = absurd h
  Succeeds-then Q P (some a) f h k = k a refl h

module _ {ℓ} {A : Type ℓ} where
  pub Succeeds_lem : (P : A → Type 0) (r : Option A) → Succeeds P r → (a : A) × (r ≡ some a) × P a
  Succeeds_lem P none h = absurd h
  Succeeds_lem P (some a) h = (a, refl, h)

  pub Succeeds-Returns : (P : A → Type 0) (r : Option A) → Succeeds P r → Returns P r
  Succeeds-Returns P none h = tt
  Succeeds-Returns P (some a) h = h
