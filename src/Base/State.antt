-- ===== src/Base/State.antt =====
-- State passing: a computation takes a state and returns its result with the next state.
abbrev pub Stateful {ℓ} : Type ℓ → Type ℓ → Type ℓ
Stateful S A = S → A × S

module _ {ℓ} {S A B : Type ℓ} where
  infixl 5 ◌>>=◌ ◌>>◌
  abbrev pub ◌>>=◌ : Stateful S A → (A → Stateful S B) → Stateful S B
  ◌>>=◌ m f s = f (m s).0 (m s).1

  abbrev pub ◌>>◌ : Stateful S A → Stateful S B → Stateful S B
  ◌>>◌ m k s = k (m s).1

abbrev pub pure {ℓ} : {S A : Type ℓ} → A → Stateful S A
pure a s = (a, s)
