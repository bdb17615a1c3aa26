-- ===== src/Handler/Invariant/Send.antt =====
-- Every step of `send` keeps the handler's invariant.
use hydro_lo_ra_shield.Base.{ℕ, List, ◌+◌, u8, true, false}
use hydro_lo_ra_shield.Base.Fault.{Returns, Returns->>=, Returns-then}
use hydro_lo_ra_shield.Packet.{type_code, PacketTypes}
use hydro_lo_ra_shield.Entries.{slot, push_all}
use hydro_lo_ra_shield.Aes.{Aes}
use hydro_lo_ra_shield.Link.{Link}
use hydro_lo_ra_shield.Handler.{Handler}
use hydro_lo_ra_shield.Endian.{u32_to_bytes, load_words}
use hydro_lo_ra_shield.Padding.{padded_size, pad}
use hydro_lo_ra_shield.Packet.Wire.{encode}
use hydro_lo_ra_shield.Handler.Send.{fragments, raw_fragments, handshake_packet, draw}
use hydro_lo_ra_shield.Handler.Send.Steps.{
  Job, greeting, transmitting, Stage, idle, trying, waiting, resting, next_frame, begin_send, go_on,
  send_step,
}
use hydro_lo_ra_shield.Handler.Send.Handshake.{length-draw}
use hydro_lo_ra_shield.Handler.Invariant.{IsHandlerOf, IsHandler}

module _ {aes : Aes} where
  pub begin_send-IsHandler :
      (rands : ℕ → ℕ) (now : ℕ) (stale : List ℕ) (gap : ℕ) (message : List ℕ) (size : ℕ)
      (type : PacketTypes) (h : Handler aes)
      → IsHandler h
      → Returns (IsHandlerOf Stage) (begin_send rands now stale gap message size type h)
  unfolding begin_send
  begin_send-IsHandler rands now stale gap message size type h ok =
      let iv = draw 16 (λ i. rands (i + 1)) in
      Returns->>= (IsHandlerOf Stage)
        (handshake_packet (u8 (rands 0)) (u32_to_bytes (load_words iv)) stale) _
        (λ pkt e. Returns->>= (IsHandlerOf Stage) (encode gap pkt) _ (λ buffer f. record {
          vector_size = length-draw 16 (λ i. rands (i + 1));
          received_ok = ok.received_ok;
        }))

  go_on-IsHandler :
      (job : Job) (stale : ℕ → List ℕ) (gap : ℕ) (h : Handler aes)
      → IsHandler h
      → Returns (IsHandlerOf Stage) (go_on job stale gap h)
  unfolding go_on
  go_on-IsHandler (greeting o iv_bytes) stale gap h ok =
      Returns->>= (IsHandlerOf Stage) (pad o.message o.size) _ (λ padded e.
        Returns->>= (IsHandlerOf Stage)
          (fragments (type_code o.type) o.entry.id (u8 (raw_fragments (padded_size o.size)))
            (aes.ctr_xcrypt h.aes_ctx padded).0 (padded_size o.size) (padded_size o.size) 0 0 stale)
          _
          (λ pkts f.
            Returns->>= (IsHandlerOf Stage)
              (next_frame o.entry gap (slot o.entry (push_all o.entry pkts h.messages))) _
              (λ stage g. record { vector_size = ok.vector_size; received_ok = ok.received_ok })))
  go_on-IsHandler (transmitting entry pkts) stale gap h ok =
      Returns->>= (IsHandlerOf Stage) (next_frame entry gap pkts) _ (λ stage e. ok)

  -- A handler beside the radio and the stage of `send`.
  abbrev pub IsHandlerAt : (R : Type 0) → Handler aes × R × Stage → Type 0
  IsHandlerAt R r = IsHandler r.0

  pub send_step-IsHandler :
      (link : Link) (stale : ℕ → List ℕ) (gap : ℕ) (h : Handler aes) (radio : link.Radio)
      (stage : Stage)
      → IsHandler h
      → Returns (IsHandlerAt link.Radio) (send_step link stale gap (h, radio, stage))
  unfolding send_step
  send_step-IsHandler link stale gap h radio idle ok = tt
  send_step-IsHandler link stale gap h radio (trying buffer job) ok = ok
  send_step-IsHandler link stale gap h radio (waiting buffer true job) ok = ok
  send_step-IsHandler link stale gap h radio (waiting buffer false job) ok = ok
  send_step-IsHandler link stale gap h radio (resting job) ok =
      Returns-then (IsHandlerOf Stage) (IsHandlerAt link.Radio) (go_on job stale gap h) _
        (go_on-IsHandler job stale gap h ok) (λ r good. good)
