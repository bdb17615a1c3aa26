-- ===== src/Handler/Invariant.antt =====
-- What holds of the handler at all times: its vector has 16 bytes, and `received` has one entry for
-- each message id, whose packets are within their limits and of that message.
pub mod Frames
pub mod Receive
pub mod Poll
pub mod Send
pub mod Outgoing
use hydro_lo_ra_shield.Base.{
  ℕ, zero, suc, ◌≤◌, length-take, take, All-take, ◌+◌, ◌<◌, ◌≡◌, ◌≢◌, refl, sym, ap, ◌∙◌, Bool,
  true, false, List, [], ◌∷◌, ◌++◌, Option, none, some, arith, All, All-append, All-drop,
  Bool-cases, inl, inr, length, length-append, length-drop, drop, if◌then◌else◌, IsByte, IsBytes,
  load_bytes, store_bytes, leb, leb→le, get_elem?,
}
use hydro_lo_ra_shield.Base.Fault.{◌>>=◌, Returns, Returns->>=, Returns_lem}
use hydro_lo_ra_shield.Packet.{Packet, IsPacket, packet_max_size}
use hydro_lo_ra_shield.Packet.Wire.{Frame, foreign, frame, decode, has_header}
use hydro_lo_ra_shield.Packet.Checksum.{validate_checksum}
use hydro_lo_ra_shield.Entries.{MessageEntry, Messages, same_entry, push_back}
use hydro_lo_ra_shield.Entries.Laws.{same_entry-eq, same_entry_iff}
use hydro_lo_ra_shield.Aes.{Aes}
use hydro_lo_ra_shield.Handler.{Handler, clean}
use hydro_lo_ra_shield.Handler.Receive.{incoming, store_frame, accept}

-- A packet of the message `id`.
abbrev pub IsOf : ℕ → Packet → Type 0
IsOf id p = IsPacket p × (p.message_id ≡ id)

-- An entry of `received`: it has packets, and they are of its message.
abbrev pub IsEntry : MessageEntry × List Packet → Type 0
IsEntry (key, ps) = (key.expiration ≡ 0xffff_ffff) × (ps ≢ []) × All (IsOf key.id) ps

abbrev pub HasOther : ℕ → MessageEntry × List Packet → Type 0
HasOther id (key, ps) = key.id ≢ id

-- No two entries are of one message.
abbrev pub DistinctIds : Messages → Type 0
DistinctIds [] = Unit
DistinctIds ((key, ps) ∷ rest) = All (HasOther key.id) rest × DistinctIds rest

abbrev pub IsReceived : Messages → Type 0
IsReceived m = All IsEntry m × DistinctIds m

pub record IsHandler {aes : Aes} (h : Handler aes) : Type 0 where
  pub vector_size : length h.iv ≡ 16
  pub received_ok : IsReceived h.received

not_empty : (ps : List Packet) (p : Packet) → ps ++ p ∷ [] ≢ []
not_empty [] p e = cc
not_empty (q ∷ ps) p e = cc

same-id :
    (key : MessageEntry) (id : ℕ)
    → key.expiration ≡ 0xffff_ffff
    → (same_entry key (incoming id) ≡ true → key.id ≡ id)
      × (same_entry key (incoming id) ≡ false → key.id ≢ id)
same-id key id e = (
  λ s. (same_entry-eq key (incoming id) s).1,
  λ s i. ground (arith, (same_entry_iff key (incoming id) e).1 i),
)

-- Pushing a packet under another id.
HasOther-push_back :
    (id : ℕ) (p : Packet) (m : Messages)
    → p.message_id ≢ id
    → All (HasOther id) m
    → All (HasOther id) (push_back (incoming p.message_id) p m)
unfolding push_back
HasOther-push_back id p [] other h = (other, tt)
HasOther-push_back id p ((key, ps) ∷ rest) other h =
    elim (Bool-cases (same_entry key (incoming p.message_id))) [
      | inl same ↦ rw same h
      | inr differs ↦ rw (differs, push_back) (h.0, HasOther-push_back id p rest other h.1)
    ]

pub push_back-IsReceived :
    (p : Packet) (m : Messages)
    → IsPacket p
    → IsReceived m
    → IsReceived (push_back (incoming p.message_id) p m)
unfolding push_back
push_back-IsReceived p [] fits h = (((refl, (λ e. cc), ((fits, refl), tt)), tt), (tt, tt))
push_back-IsReceived p ((key, ps) ∷ rest) fits
      (((forever, some_packets, ofs), others), (apart, distinct)) =
    let by_id = same-id key p.message_id forever in
    elim (Bool-cases (same_entry key (incoming p.message_id))) [
      | inl same ↦ rw same (
        (
          (
            forever,
            not_empty ps p,
            All-append (IsOf key.id) ps (p ∷ []) ofs ((fits, sym (by_id.0 same)), tt),
          ),
          others,
        ),
        (apart, distinct),
      )
      | inr differs ↦
          let rest_ok = push_back-IsReceived p rest fits (others, distinct) in
          rw (differs, push_back)
            (
              ((forever, some_packets, ofs), rest_ok.0),
              (HasOther-push_back key.id p rest (λ e. by_id.1 differs (sym e)) apart, rest_ok.1),
            )
    ]

module _ {aes : Aes} where
  -- A handler beside something else.
  abbrev pub IsHandlerOf : (R : Type 0) → Handler aes × R → Type 0
  IsHandlerOf R r = IsHandler r.0

  pub clean-IsHandler : (now : ℕ) (h : Handler aes) → IsHandler h → IsHandler (clean now h)
  unfolding clean
  clean-IsHandler now h ok = record { vector_size = ok.vector_size; received_ok = ok.received_ok }
