-- ===== src/Handler/Invariant/Outgoing.antt =====
-- The outgoing packets: those in `messages`, and those that `send` has still to transmit, are within
-- their limits.
use hydro_lo_ra_shield.Base.{
  ◌+◌, ℕ, ◌≡◌, refl, ◌∙◌, List, [], ◌∷◌, some, none, Option, All, All-append, Bool-cases, inl, inr,
  leb, load_bytes, store_bytes,
}
use hydro_lo_ra_shield.Base.Fault.{Returns, Returns->>=, Returns-then}
use hydro_lo_ra_shield.Packet.{Packet, IsPacket, PacketTypes, msg, encryp, ack, nack, flags, dict}
use hydro_lo_ra_shield.Entries.{
  MessageEntry, Messages, same_entry, push_back, push_all, slot, touch,
}
use hydro_lo_ra_shield.Padding.{Delivery, strip}
use hydro_lo_ra_shield.Aes.{Aes}
use hydro_lo_ra_shield.Handler.{Handler, unexpired, clean}
use hydro_lo_ra_shield.Handler.Sort.{sort}
use hydro_lo_ra_shield.Handler.Poll.{
  is_complete, handle_msg, handle_encryp, dispatch, process, poll_entries, poll, reassemble,
  front_type, total_length,
}

-- An entry of `messages`.
abbrev pub IsKept : MessageEntry × List Packet → Type 0
IsKept (key, ps) = All IsPacket ps

push_back-IsKept :
    (entry : MessageEntry) (p : Packet) (m : Messages)
    → IsPacket p
    → All IsKept m
    → All IsKept (push_back entry p m)
unfolding push_back
push_back-IsKept entry p [] fits kept = ((fits, tt), tt)
push_back-IsKept entry p ((key, ps) ∷ rest) fits kept = elim (Bool-cases (same_entry key entry)) [
  | inl same ↦ rw same (All-append IsPacket ps (p ∷ []) kept.0 (fits, tt), kept.1)
  | inr differs ↦ rw (differs, push_back) (kept.0, push_back-IsKept entry p rest fits kept.1)
]

pub push_all-IsKept :
    (entry : MessageEntry) (ps : List Packet) (m : Messages)
    → All IsPacket ps
    → All IsKept m
    → All IsKept (push_all entry ps m)
unfolding push_all
push_all-IsKept entry [] m fits kept = kept
push_all-IsKept entry (p ∷ ps) m fits kept =
    push_all-IsKept entry ps (push_back entry p m) fits.1 (push_back-IsKept entry p m fits.0 kept)

pub slot-IsPacket :
    (entry : MessageEntry) (m : Messages) → All IsKept m → All IsPacket (slot entry m)
unfolding slot
slot-IsPacket entry [] kept = tt
slot-IsPacket entry ((key, ps) ∷ rest) kept = elim (Bool-cases (same_entry key entry)) [
  | inl same ↦ rw same kept.0
  | inr differs ↦ rw (differs, slot) (slot-IsPacket entry rest kept.1)
]

pub touch-IsKept : (entry : MessageEntry) (m : Messages) → All IsKept m → All IsKept (touch entry m)
unfolding touch
touch-IsKept entry [] kept = (tt, tt)
touch-IsKept entry ((key, ps) ∷ rest) kept = elim (Bool-cases (same_entry key entry)) [
  | inl same ↦ rw same kept
  | inr differs ↦ rw (differs, touch) (kept.0, touch-IsKept entry rest kept.1)
]

unexpired-IsKept : (now : ℕ) (m : Messages) → All IsKept m → All IsKept (unexpired now m)
unfolding unexpired
unexpired-IsKept now [] kept = tt
unexpired-IsKept now ((key, ps) ∷ rest) kept = elim (Bool-cases (leb key.expiration now)) [
  | inl over ↦ rw (over, unexpired) (unexpired-IsKept now rest kept.1)
  | inr fresh ↦ rw (fresh, unexpired) (kept.0, unexpired-IsKept now rest kept.1)
]

module _ {aes : Aes} where
  -- What keeps the outgoing messages `m`, beside something else.
  abbrev pub HasSent : Messages → (R : Type 0) → Handler aes × R → Type 0
  HasSent m R r = r.0.messages ≡ m

  abbrev LoopHasSent : Messages → Handler aes × Messages × List Delivery → Type 0
  LoopHasSent m r = r.0.messages ≡ m

  dispatch-HasSent :
      (t : Option PacketTypes) (dangling total : ℕ) (reassembled : List ℕ) (h : Handler aes)
      → Returns (HasSent h.messages (List Delivery)) (dispatch t dangling total reassembled h)
  unfolding dispatch handle_msg handle_encryp
  dispatch-HasSent none dangling total reassembled h = refl
  dispatch-HasSent (some ack) dangling total reassembled h = refl
  dispatch-HasSent (some nack) dangling total reassembled h = refl
  dispatch-HasSent (some flags) dangling total reassembled h = refl
  dispatch-HasSent (some dict) dangling total reassembled h = refl
  dispatch-HasSent (some msg) dangling total reassembled h =
      let P = HasSent h.messages (List Delivery) in
      elim (Bool-cases h.msg_callback) [
        | inl callback ↦
            rw (callback, Returns, dispatch)
              (Returns->>= P (strip total (aes.ctr_xcrypt h.aes_ctx reassembled).0) _ (λ d e. refl))
        | inr silent ↦ rw (silent, Returns, dispatch) refl
      ]
  dispatch-HasSent (some encryp) dangling total reassembled h =
      let P = HasSent h.messages (List Delivery) in
      Returns->>= P (load_bytes 0 16 reassembled) _ (λ vector e.
        Returns->>= P (load_bytes 0 dangling _) _
          (λ copied f. Returns->>= P (store_bytes copied h.iv) _ (λ iv g. refl)))

  process-HasSent :
      (dangling : ℕ) (ps : List Packet) (h : Handler aes)
      → Returns (HasSent h.messages (List Delivery)) (process dangling ps h)
  unfolding process
  process-HasSent dangling ps h =
      Returns->>= (HasSent h.messages (List Delivery)) (reassemble (sort ps)) _ (λ reassembled e.
        dispatch-HasSent (front_type (sort ps)) dangling (total_length 0 (sort ps)) reassembled h)

  poll_entries-HasSent :
      (dangling : ℕ → ℕ) (m : Messages) (h : Handler aes)
      → Returns (LoopHasSent h.messages) (poll_entries dangling m h)
  unfolding poll_entries
  poll_entries-HasSent dangling [] h = refl
  poll_entries-HasSent dangling ((entry, ps) ∷ rest) h =
      let P = LoopHasSent h.messages in
      elim (Bool-cases (is_complete ps)) [
        | inl done ↦
            rw (done, Returns, poll_entries)
              (Returns-then (HasSent h.messages (List Delivery)) P (process (dangling 0) ps h) _
                (process-HasSent (dangling 0) ps h)
                (λ r kept.
                  Returns-then (LoopHasSent r.0.messages) P
                    (poll_entries (λ i. dangling (i + 1)) rest r.0) _
                    (poll_entries-HasSent (λ i. dangling (i + 1)) rest r.0) (λ t k. k ∙ kept)))
        | inr more ↦
            rw (more, Returns, poll_entries)
              (Returns-then P P (poll_entries (λ i. dangling (i + 1)) rest h) _
                (poll_entries-HasSent (λ i. dangling (i + 1)) rest h) (λ t k. k))
      ]

  pub poll-HasSent :
      (dangling : ℕ → ℕ) (h : Handler aes)
      → Returns (HasSent h.messages (List Delivery)) (poll dangling h)
  unfolding poll
  poll-HasSent dangling h =
      Returns-then (LoopHasSent h.messages) (HasSent h.messages (List Delivery))
        (poll_entries dangling h.received h) _ (poll_entries-HasSent dangling h.received h)
        (λ t k. k)

  pub clean-IsKept :
      (now : ℕ) (h : Handler aes) → All IsKept h.messages → All IsKept (clean now h).messages
  unfolding clean
  clean-IsKept now h kept = unexpired-IsKept now h.messages kept
