-- ===== src/Handler/Sort/Laws.antt =====
-- The sorted order of fragments with distinct ids does not depend on the order of arrival.
use mathlib.Core.Logic.{∥∥₁_elim}
use mathlib.Core.List.{Perm, Permᴰ}
use mathlib.Core.Path.{subst}
use hydro_lo_ra_shield.Base.{
  ℕ, suc, ◌<◌, ◌≡◌, ◌≢◌, refl, sym, ap, ap₂, ◌∙◌, List, [], ◌∷◌, arith, All, All-Permᴰ,
}
use hydro_lo_ra_shield.Packet.{Packet}
use hydro_lo_ra_shield.Handler.Sort.{insert, sort}

abbrev OtherId : ℕ → Packet → Type 0
OtherId id q = q.fragment_id ≢ id

-- No two packets have one fragment id.
abbrev pub Distinct : List Packet → Type 0
Distinct [] = Unit
Distinct (p ∷ ps) = All (OtherId p.fragment_id) ps × Distinct ps

insert_comm :
    (p q : Packet) (ps : List Packet)
    → p.fragment_id ≢ q.fragment_id
    → insert p (insert q ps) ≡ insert q (insert p ps)
unfolding insert
insert_comm p q [] h = ground arith
insert_comm p q (r ∷ ps) h = ground (arith, insert_comm p q ps h)

sort-Permᴰ : {ps qs : List Packet} → Permᴰ ps qs → Distinct ps → (sort ps ≡ sort qs) × Distinct qs
unfolding sort
sort-Permᴰ Permᴰ.nil d = (refl, tt)
sort-Permᴰ (Permᴰ.cons {a} {b} {l₂} e m) d = (
  ap₂ insert e (sort-Permᴰ m d.1).0,
  (
    subst (λ (x : Packet). All (OtherId x.fragment_id) l₂) e
        (All-Permᴰ (OtherId a.fragment_id) m d.0),
    (sort-Permᴰ m d.1).1,
  ),
)
sort-Permᴰ (Permᴰ.swap {a} {b} {a'} {b'} {l} e f) d = (
  insert_comm a b (sort l) (λ g. d.0.0 (sym g)) ∙ ap₂ (λ x y. insert x (insert y (sort l))) f e,
  swapped,
)
  where
    swapped : Distinct (a' ∷ b' ∷ l)
    swapped =
        subst (λ x. Distinct (x ∷ b' ∷ l)) f
          (subst (λ y. Distinct (b ∷ y ∷ l)) e (((λ g. d.0.0 (sym g)), d.1.0), (d.0.1, d.1.1)))
sort-Permᴰ (Permᴰ.trans m n) d =
    let first = sort-Permᴰ m d in
    let second = sort-Permᴰ n first.1 in (first.0 ∙ second.0, second.1)

Packets-set : IsSet (List Packet)
Packets-set = hlevel

-- Fragments with distinct ids are sorted into one list, in whatever order they came.
pub sort-Perm : {ps qs : List Packet} → Perm ps qs → Distinct ps → sort ps ≡ sort qs
sort-Perm {ps} {qs} m d = ∥∥₁_elim m (Packets-set (sort ps) (sort qs)) (λ n. (sort-Permᴰ n d).0)

-- Ids that rise from `idx` on.
abbrev pub Rising : ℕ → List Packet → Type 0
Rising idx [] = Unit
Rising idx (p ∷ ps) = (p.fragment_id ≡ idx) × Rising (suc idx) ps

Rising-above : (id idx : ℕ) (ps : List Packet) → id < idx → Rising idx ps → All (OtherId id) ps
Rising-above id idx [] h r = tt
Rising-above id idx (p ∷ ps) h r =
    ((λ e. absurd (omega (arith, r.0))), Rising-above id (suc idx) ps (omega arith) r.1)

pub Rising-Distinct : (idx : ℕ) (ps : List Packet) → Rising idx ps → Distinct ps
Rising-Distinct idx [] r = tt
Rising-Distinct idx (p ∷ ps) r = (
  Rising-above p.fragment_id (suc idx) ps (omega (arith, r.0)) r.1,
  Rising-Distinct (suc idx) ps r.1,
)

pub sort-Rising : (idx : ℕ) (ps : List Packet) → Rising idx ps → sort ps ≡ ps
unfolding sort
sort-Rising idx [] r = refl
sort-Rising idx (p ∷ ps) r = ap (insert p) (sort-Rising (suc idx) ps r.1) ∙ in_front ps r.1
  where
    in_front : (qs : List Packet) → Rising (suc idx) qs → insert p qs ≡ p ∷ qs
    in_front [] s = refl
    in_front (q ∷ qs) s = ground (arith, r.0, s.0)
