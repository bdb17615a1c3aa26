-- ===== src/Base/Perms.antt =====
-- Permutations: what holds of all entries does not depend on the order.
use Prim.Native.Nat.{suc}
use mathlib.Core.Path.{◌≡◌, refl, ap, subst, ◌∙◌}
use mathlib.Core.List.{List, map, Permᴰ}
use hydro_lo_ra_shield.Base.Lists.{All, length}

module _ {ℓ κ} {A : Type ℓ} (P : A → Type κ) where
  pub All-Permᴰ : {xs ys : List A} → Permᴰ xs ys → All P xs → All P ys
  All-Permᴰ Permᴰ.nil a = tt
  All-Permᴰ (Permᴰ.cons e m) a = (subst P e a.0, All-Permᴰ m a.1)
  All-Permᴰ (Permᴰ.swap e f) a = (subst P f a.1.0, (subst P e a.0, a.1.1))
  All-Permᴰ (Permᴰ.trans m n) a = All-Permᴰ n (All-Permᴰ m a)

module _ {ℓ} {A : Type ℓ} where
  pub length-Permᴰ : {xs ys : List A} → Permᴰ xs ys → length xs ≡ length ys
  length-Permᴰ Permᴰ.nil = refl
  length-Permᴰ (Permᴰ.cons e m) = ap suc (length-Permᴰ m)
  length-Permᴰ (Permᴰ.swap e f) = refl
  length-Permᴰ (Permᴰ.trans m n) = length-Permᴰ m ∙ length-Permᴰ n

  pub map-Permᴰ {κ} :
      {B : Type κ} (f : A → B) {xs ys : List A} → Permᴰ xs ys → Permᴰ (map f xs) (map f ys)
  map-Permᴰ f Permᴰ.nil = Permᴰ.nil
  map-Permᴰ f (Permᴰ.cons e m) = Permᴰ.cons (ap f e) (map-Permᴰ f m)
  map-Permᴰ f (Permᴰ.swap e g) = Permᴰ.swap (ap f e) (ap f g)
  map-Permᴰ f (Permᴰ.trans m n) = Permᴰ.trans (map-Permᴰ f m) (map-Permᴰ f n)
