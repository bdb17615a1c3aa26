-- ===== src/Handler/Context.antt =====
-- What leaves the AES context alone: `receive`, and a `poll` that finds no complete message.
use hydro_lo_ra_shield.Base.{
  ℕ, ◌+◌, ◌≡◌, refl, false, not, ◌||◌, ◌==◌, if◌then◌else◌, List, [], ◌∷◌, some, All, Bool-cases,
  inl, inr,
}
use hydro_lo_ra_shield.Base.Fault.{Returns, Returns->>=, Returns-then, Returns-either}
use hydro_lo_ra_shield.Packet.{Packet, packet_max_size}
use hydro_lo_ra_shield.Packet.Wire.{Frame, foreign, frame, decode}
use hydro_lo_ra_shield.Packet.Checksum.{validate_checksum}
use hydro_lo_ra_shield.Entries.{MessageEntry, Messages}
use hydro_lo_ra_shield.Aes.{Aes}
use hydro_lo_ra_shield.Link.{Link, lora_ok}
use hydro_lo_ra_shield.Handler.{Handler}
use hydro_lo_ra_shield.Handler.Receive.{store_frame, accept, receive}
use hydro_lo_ra_shield.Handler.Poll.{is_complete, poll_entries}

-- No fragment of the message is missing any more.
abbrev pub IsPending : MessageEntry × List Packet → Type 0
IsPending (key, ps) = is_complete ps ≡ false

module _ {aes : Aes} where
  -- What keeps the context, beside something else.
  abbrev pub HasCtx : aes.Ctx → (R : Type 0) → Handler aes × R → Type 0
  HasCtx ctx R r = r.0.aes_ctx ≡ ctx

  -- `receive` changes neither the context nor the outgoing messages.
  abbrev pub IsApart : Handler aes → (R : Type 0) → Handler aes × R → Type 0
  IsApart h R r = (r.0.aes_ctx ≡ h.aes_ctx) × (r.0.messages ≡ h.messages)

  abbrev Apart : Handler aes → Handler aes → Type 0
  Apart h k = (k.aes_ctx ≡ h.aes_ctx) × (k.messages ≡ h.messages)

  store_frame-Apart : (f : Frame) (h : Handler aes) → Apart h (store_frame f h)
  unfolding store_frame
  store_frame-Apart foreign h = (refl, refl)
  store_frame-Apart (frame p c) h = elim (Bool-cases (validate_checksum p c)) [
    | inl good ↦ rw good (refl, refl)
    | inr bad ↦ rw bad (refl, refl)
  ]

  pub receive-IsApart :
      (link : Link) (rx fresh : List ℕ) (junk : ℕ) (h : Handler aes) (radio : link.Radio)
      → Returns (IsApart h link.Radio) (receive link rx fresh junk h radio)
  unfolding receive accept
  receive-IsApart link rx fresh junk h radio =
      Returns->>= (IsApart h link.Radio) (link.receive rx (packet_max_size + 9) 500 radio) _ (λ r e.
        let nothing = r.0.received == 0 || not (r.0.error == lora_ok) in
        Returns-then (Apart h) (IsApart h link.Radio)
          (if nothing then some h else accept fresh junk r.0.buffer h) _
          (Returns-either (Apart h) nothing (some h) (accept fresh junk r.0.buffer h) (refl, refl)
            (Returns->>= (Apart h) (decode fresh junk r.0.buffer) _ (λ f g. store_frame-Apart f h)))
          (λ k same. same))

  -- A poll that finds no complete message changes nothing.
  pub poll_entries-pending :
      (dangling : ℕ → ℕ) (m : Messages) (h : Handler aes)
      → All IsPending m
      → poll_entries dangling m h ≡ some (h, m, [])
  unfolding poll_entries
  poll_entries-pending dangling [] h held = refl
  poll_entries-pending dangling ((key, ps) ∷ rest) h held =
      rw (held.0, poll_entries-pending (λ i. dangling (i + 1)) rest h held.1, poll_entries) refl
