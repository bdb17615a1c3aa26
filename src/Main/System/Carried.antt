-- ===== src/Main/System/Carried.antt =====
-- The stages of `send` and the vector in its handshake frame.
use mathlib.Core.Path.{subst}
use hydro_lo_ra_shield.Base.{
  ℕ, ◌+◌, ◌≡◌, refl, sym, ap, ◌∙◌, true, false, List, [], ◌∷◌, length, IsBytes, u8, arith,
}
use hydro_lo_ra_shield.Base.Fault.{Returns, Returns->>=, Returns-then}
use hydro_lo_ra_shield.Packet.{Packet, content, encryp, type_code, packet_max_size}
use hydro_lo_ra_shield.Packet.Wire.{encode}
use hydro_lo_ra_shield.Packet.Wire.Laws.{bytes_of, encode_fits}
use hydro_lo_ra_shield.Endian.{load_words, u32_to_bytes}
use hydro_lo_ra_shield.Endian.Laws.{
  reverse_words-WholeWords, WholeWords-IsBytes, length-reverse_words, u32_to_bytes-load_words,
}
use hydro_lo_ra_shield.Entries.{MessageEntry, slot, push_all}
use hydro_lo_ra_shield.Padding.{pad, padded_size}
use hydro_lo_ra_shield.Aes.{Aes}
use hydro_lo_ra_shield.Handler.{Handler}
use hydro_lo_ra_shield.Handler.Send.{draw, handshake_packet, fragments, raw_fragments}
use hydro_lo_ra_shield.Handler.Send.Handshake.{draw-WholeWords, length-draw, handshake_packet_lem}
use hydro_lo_ra_shield.Handler.Send.Fragments.{IsFragment}
use hydro_lo_ra_shield.Handler.Send.Steps.{
  Outgoing, Job, greeting, transmitting, Stage, idle, trying, waiting, resting, begin_send,
  next_frame, go_on,
}
use hydro_lo_ra_shield.Interface.{on_data}
use hydro_lo_ra_shield.Main.System.{begin_request}

-- The frame is a handshake of the message, with the vector in it.
abbrev pub Announces : List ℕ → Outgoing → List ℕ → Type 0
Announces frame o vector =
    (gap : ℕ) × (p : Packet) × (frame ≡ bytes_of gap p)
    × IsFragment (type_code encryp) o.entry.id 1 0 p
    × (content p ≡ vector)

abbrev Carries : List ℕ → Job → Type 0
Carries frame (greeting o iv_bytes) = Announces frame o iv_bytes
Carries frame (transmitting entry pkts) = Unit

abbrev pub IsCarried : Stage → Type 0
IsCarried idle = Unit
IsCarried (trying buffer job) = Carries buffer job
IsCarried (waiting buffer succes job) = Carries buffer job
IsCarried (resting job) = Unit

-- From an accepted attempt for `job` to the next attempt.
abbrev pub IsFinishing : Job → Stage → Type 0
IsFinishing job idle = Unit
IsFinishing job (trying buffer other) = Unit
IsFinishing job (waiting buffer true other) = other ≡ job
IsFinishing job (waiting buffer false other) = ⊥
IsFinishing job (resting other) = other ≡ job

-- `send` is outside, or before an attempt for a fragment.
abbrev pub IsNext : Stage → Type 0
IsNext idle = Unit
IsNext (trying buffer (greeting o iv_bytes)) = ⊥
IsNext (trying buffer (transmitting entry pkts)) = Unit
IsNext (waiting buffer succes job) = ⊥
IsNext (resting job) = ⊥

pub IsNext-IsCarried : (stage : Stage) → IsNext stage → IsCarried stage
IsNext-IsCarried idle h = tt
IsNext-IsCarried (trying buffer (greeting o iv_bytes)) h = absurd h
IsNext-IsCarried (trying buffer (transmitting entry pkts)) h = tt
IsNext-IsCarried (waiting buffer succes job) h = absurd h
IsNext-IsCarried (resting job) h = absurd h

pub IsNext-IsFinishing : (job : Job) (stage : Stage) → IsNext stage → IsFinishing job stage
IsNext-IsFinishing job idle h = tt
IsNext-IsFinishing job (trying buffer other) h = tt
IsNext-IsFinishing job (waiting buffer succes other) h = absurd h
IsNext-IsFinishing job (resting other) h = absurd h

next_frame-IsNext :
    (entry : MessageEntry) (gap : ℕ) (pkts : List Packet)
    → Returns IsNext (next_frame entry gap pkts)
unfolding next_frame
next_frame-IsNext entry gap [] = tt
next_frame-IsNext entry gap (pkt ∷ pkts) = Returns->>= IsNext (encode gap pkt) _ (λ buffer e. tt)

module _ {aes : Aes} where
  pub go_on-IsNext :
      (job : Job) (stale : ℕ → List ℕ) (gap : ℕ) (h : Handler aes)
      → Returns (λ r. IsNext r.1) (go_on job stale gap h)
  unfolding go_on
  go_on-IsNext (greeting o iv_bytes) stale gap h =
      let Next : Handler aes × Stage → Type 0 = λ r. IsNext r.1 in
      Returns->>= Next (pad o.message o.size) _ (λ padded e.
        Returns->>= Next
          (fragments (type_code o.type) o.entry.id (u8 (raw_fragments (padded_size o.size)))
            (aes.ctr_xcrypt h.aes_ctx padded).0 (padded_size o.size) (padded_size o.size) 0 0 stale)
          _
          (λ pkts f.
            Returns-then IsNext Next
              (next_frame o.entry gap (slot o.entry (push_all o.entry pkts h.messages))) _
              (next_frame-IsNext o.entry gap _) (λ stage next. next)))
  go_on-IsNext (transmitting entry pkts) stale gap h =
      Returns-then IsNext (λ r. IsNext r.1) (next_frame entry gap pkts) _
        (next_frame-IsNext entry gap pkts) (λ stage next. next)

  pub begin_request-IsCarried :
      (message : List ℕ) (rands : ℕ → ℕ) (now : ℕ) (stale : List ℕ) (gap : ℕ) (h : Handler aes)
      → length stale ≡ packet_max_size
      → IsBytes stale
      → Returns (λ r. IsCarried r.1) (begin_request message rands now stale gap h)
  unfolding begin_request begin_send
  begin_request-IsCarried message rands now stale gap h room bytes =
      let words = draw-WholeWords (λ i. rands (i + 1)) in
      let iv_bytes = u32_to_bytes (load_words (draw 16 (λ i. rands (i + 1)))) in
      let swapped = u32_to_bytes-load_words words in
      let (p, made, opens, carried) =
        handshake_packet_lem (u8 (rands 0)) iv_bytes stale (omega arith)
          (ap length swapped ∙ length-reverse_words words ∙ length-draw 16 (λ i. rands (i + 1)))
          (subst IsBytes (sym swapped) (WholeWords-IsBytes (reverse_words-WholeWords words))) room
          bytes in
      Returns->>= (λ (r : Handler aes × Stage). IsCarried r.1) (on_data message) _
        (λ r e. rw (made, encode_fits gap opens.fits) (gap, p, refl, opens, carried))

  pub begin_request-IsFinishing :
      (job : Job) (message : List ℕ) (rands : ℕ → ℕ) (now : ℕ) (stale : List ℕ) (gap : ℕ)
      (h : Handler aes)
      → Returns (λ r. IsFinishing job r.1) (begin_request message rands now stale gap h)
  unfolding begin_request begin_send
  begin_request-IsFinishing job message rands now stale gap h =
      let Finishing : Handler aes × Stage → Type 0 = λ r. IsFinishing job r.1 in
      Returns->>= Finishing (on_data message) _ (λ r e.
        Returns->>= Finishing (handshake_packet (u8 (rands 0)) _ stale) _
          (λ pkt f. Returns->>= Finishing (encode gap pkt) _ (λ buffer g. tt)))
