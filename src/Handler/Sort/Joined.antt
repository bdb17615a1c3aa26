-- ===== src/Handler/Sort/Joined.antt =====
-- What sorting leaves as it is: what holds of all packets, and the number of their bytes.
use hydro_lo_ra_shield.Base.{
  ◌+◌, ◌≡◌, refl, List, [], ◌∷◌, ◌++◌, arith, All, Bool-cases, inl, inr, length, ltb, length-append,
}
use hydro_lo_ra_shield.Packet.{Packet, content}
use hydro_lo_ra_shield.Handler.Send.Fragments.{join}
use hydro_lo_ra_shield.Handler.Sort.{insert, sort}

insert-All :
    (P : Packet → Type 0) (p : Packet) (ps : List Packet) → P p → All P ps → All P (insert p ps)
unfolding insert
insert-All P p [] h k = (h, tt)
insert-All P p (q ∷ qs) h k = elim (Bool-cases (ltb q.fragment_id p.fragment_id)) [
  | inl after ↦ rw (after, insert) (k.0, insert-All P p qs h k.1)
  | inr before ↦ rw (before, insert) (h, k)
]

pub sort-All : (P : Packet → Type 0) (ps : List Packet) → All P ps → All P (sort ps)
unfolding sort
sort-All P [] h = tt
sort-All P (p ∷ ps) h = insert-All P p (sort ps) h.0 (sort-All P ps h.1)

length-join-insert :
    (p : Packet) (ps : List Packet)
    → length (join (insert p ps)) ≡ length (content p) + length (join ps)
unfolding insert
length-join-insert p [] = length-append (content p) []
length-join-insert p (q ∷ qs) = elim (Bool-cases (ltb q.fragment_id p.fragment_id)) [
  | inl after ↦
      rw (after, insert)
        (omega (
          arith,
          length-append (content q) (join (insert p qs)),
          length-append (content q) (join qs),
          length-join-insert p qs,
        ))
  | inr before ↦ rw (before, insert) (length-append (content p) (content q ++ join qs))
]

-- Sorting keeps the number of bytes.
pub length-join-sort : (ps : List Packet) → length (join (sort ps)) ≡ length (join ps)
unfolding sort
length-join-sort [] = refl
length-join-sort (p ∷ ps) = omega (
  arith,
  length-join-insert p (sort ps),
  length-join-sort ps,
  length-append (content p) (join ps),
)
