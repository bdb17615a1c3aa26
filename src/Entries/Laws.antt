-- ===== src/Entries/Laws.antt =====
-- The maps of packets: what is pushed under a key is found there, in order, and nowhere else.
use hydro_lo_ra_shield.Base.{
  ◌≡◌, ◌↔◌, refl, sym, ap, ◌∙◌, true, false, List, [], ◌∷◌, ◌++◌, append-nil, append_assoc, arith,
  if◌then◌else◌, Bool-cases, ==_refl, inl, inr,
}
use hydro_lo_ra_shield.Packet.{Packet}
use hydro_lo_ra_shield.Entries.{
  MessageEntry, Messages, hash, same_entry, push_back, slot, touch, push_all,
}

pub same_entry_refl : (k : MessageEntry) → same_entry k k ≡ true
unfolding same_entry
same_entry_refl k = ground (arith, ==_refl (hash k), ==_refl k.id)

pub same_entry-eq : (a b : MessageEntry) → same_entry a b ≡ true → (hash a ≡ hash b) × (a.id ≡ b.id)
unfolding same_entry
same_entry-eq a b h = ground arith

pub same_entry_comm : (a b : MessageEntry) → same_entry a b ≡ same_entry b a
unfolding same_entry
same_entry_comm a b = ground arith

pub same_entry_trans :
    (a b c : MessageEntry) → same_entry a b ≡ true → same_entry a c ≡ same_entry b c
unfolding same_entry
same_entry_trans a b c h = ground arith

-- Keys with one expiration, as in `received`, are told apart by their ids alone.
pub same_entry_iff :
    (a b : MessageEntry) → a.expiration ≡ b.expiration → (same_entry a b ≡ true) ↔ (a.id ≡ b.id)
unfolding same_entry hash
same_entry_iff a b e = ((λ h. ground arith), (λ i. rw (i, e) (ground (arith))))

pub slot-push_back :
    (k j : MessageEntry) (p : Packet) (m : Messages)
    → slot j (push_back k p m) ≡ (if same_entry k j then slot j m ++ p ∷ [] else slot j m)
unfolding slot push_back
slot-push_back k j p [] = ground arith
slot-push_back k j p ((i, ps) ∷ m) = elim (Bool-cases (same_entry i k)) [
  | inl e ↦ rw e (ground (arith, same_entry_trans i k j e))
  | inr e ↦ rw e (elim (Bool-cases (same_entry i j)) [
    | inl f ↦ rw f (ground (arith, same_entry_trans i j k f, same_entry_comm j k))
    | inr f ↦ rw f (slot-push_back k j p m)
  ])
]

-- Pushed packets stand under their key behind what was there, in order.
pub slot-push_all :
    (k : MessageEntry) (ps : List Packet) (m : Messages) → slot k (push_all k ps m) ≡ slot k m ++ ps
unfolding push_all
slot-push_all k [] m = sym (append-nil (slot k m))
slot-push_all k (p ∷ ps) m =
    slot-push_all k ps (push_back k p m)
    ∙ ap (λ l. l ++ ps) pushed
    ∙ append_assoc (slot k m) (p ∷ []) ps
  where
    pushed : slot k (push_back k p m) ≡ slot k m ++ p ∷ []
    pushed = slot-push_back k k p m ∙ rw (same_entry_refl k) refl

-- The other keys keep their packets.
pub slot-push_all_other :
    (k j : MessageEntry) (ps : List Packet) (m : Messages)
    → same_entry k j ≡ false
    → slot j (push_all k ps m) ≡ slot j m
unfolding push_all
slot-push_all_other k j [] m h = refl
slot-push_all_other k j (p ∷ ps) m h =
    slot-push_all_other k j ps (push_back k p m) h ∙ slot-push_back k j p m ∙ rw h refl

push_all_behind :
    (k : MessageEntry) (ps qs : List Packet) → push_all k ps ((k, qs) ∷ []) ≡ (k, qs ++ ps) ∷ []
unfolding push_all push_back
push_all_behind k [] qs = ap (λ l. (k, l) ∷ []) (sym (append-nil qs))
push_all_behind k (p ∷ ps) qs =
    rw (same_entry_refl k)
      (push_all_behind k ps (qs ++ p ∷ []) ∙ ap (λ l. (k, l) ∷ []) (append_assoc qs (p ∷ []) ps))

-- Packets that are pushed under one key into an empty map are its only entry.
pub push_all_alone :
    (k : MessageEntry) (p : Packet) (ps : List Packet) → push_all k (p ∷ ps) [] ≡ (k, p ∷ ps) ∷ []
unfolding push_all push_back
push_all_alone k p ps = push_all_behind k ps (p ∷ [])

-- Making a missing entry does not change what is found.
pub slot-touch : (k : MessageEntry) (m : Messages) → slot k (touch k m) ≡ slot k m
unfolding slot touch
slot-touch k [] = rw (same_entry_refl k) refl
slot-touch k ((j, ps) ∷ m) = ground (arith, slot-touch k m)
