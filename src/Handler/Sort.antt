-- ===== src/Handler/Sort.antt =====
-- `std::sort` of the fragments by `fragment_id`, as `poll` calls it. Where ids repeat the library
-- leaves the order open; here it is the order of arrival.
pub mod Laws
pub mod Joined
use hydro_lo_ra_shield.Base.{Bool, List, [], ◌∷◌, ltb, if◌then◌else◌}
use hydro_lo_ra_shield.Packet.{Packet}

unfoldable pub insert : Packet → List Packet → List Packet
insert p [] = p ∷ []
insert p (q ∷ qs) = if ltb q.fragment_id p.fragment_id then q ∷ insert p qs else p ∷ q ∷ qs

unfoldable pub sort : List Packet → List Packet
unfolding insert
sort [] = []
sort (p ∷ ps) = insert p (sort ps)
