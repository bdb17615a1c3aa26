-- ===== src/Handler/Invariant/Receive.antt =====
-- `receive` keeps the handler's invariant.
use hydro_lo_ra_shield.Base.{
  ℕ, ◌≡◌, not, ◌||◌, List, some, Bool-cases, inl, inr, length, ◌+◌, IsBytes, if◌then◌else◌, ◌==◌,
}
use hydro_lo_ra_shield.Base.Fault.{Returns, Returns->>=, Returns_lem, Returns-then, Returns-either}
use hydro_lo_ra_shield.Packet.{packet_max_size}
use hydro_lo_ra_shield.Packet.Wire.{Frame, foreign, frame, decode}
use hydro_lo_ra_shield.Packet.Checksum.{validate_checksum}
use hydro_lo_ra_shield.Aes.{Aes}
use hydro_lo_ra_shield.Link.{Link, Reception, lora_ok}
use hydro_lo_ra_shield.Handler.{Handler}
use hydro_lo_ra_shield.Handler.Receive.{store_frame, accept, receive}
use hydro_lo_ra_shield.Handler.Invariant.{IsHandlerOf, IsHandler, push_back-IsReceived}
use hydro_lo_ra_shield.Handler.Invariant.Frames.{IsFrame, decode-IsFrame}

-- The radio hands over bytes.
abbrev pub HandsBytes : Link → Type 0
HandsBytes link =
    (rx : List ℕ) (len timeout : ℕ) (radio : link.Radio)
    → IsBytes rx
    → Returns (λ r. IsBytes r.0.buffer) (link.receive rx len timeout radio)

module _ {aes : Aes} where
  store_frame-IsHandler :
      (f : Frame) (h : Handler aes) → IsFrame f → IsHandler h → IsHandler (store_frame f h)
  unfolding store_frame
  store_frame-IsHandler foreign h fits ok = ok
  store_frame-IsHandler (frame p c) h fits ok = elim (Bool-cases (validate_checksum p c)) [
    | inl good ↦ rw good (record {
      vector_size = ok.vector_size;
      received_ok = push_back-IsReceived p h.received fits ok.received_ok;
    })
    | inr bad ↦ rw bad ok
  ]

  accept-IsHandler :
      (fresh : List ℕ) (junk : ℕ) (buffer : List ℕ) (h : Handler aes)
      → length fresh ≡ packet_max_size
      → IsBytes fresh
      → IsBytes buffer
      → IsHandler h
      → Returns IsHandler (accept fresh junk buffer h)
  unfolding accept
  accept-IsHandler fresh junk buffer h room stale bytes ok =
      Returns->>= IsHandler (decode fresh junk buffer) _ (λ f e.
        store_frame-IsHandler f h
          (Returns_lem IsFrame (decode fresh junk buffer)
            (decode-IsFrame fresh junk buffer room stale bytes) e)
          ok)

  pub receive-IsHandler :
      (link : Link) (rx fresh : List ℕ) (junk : ℕ) (h : Handler aes) (radio : link.Radio)
      → HandsBytes link
      → length fresh ≡ packet_max_size
      → IsBytes fresh
      → IsBytes rx
      → IsHandler h
      → Returns (IsHandlerOf link.Radio) (receive link rx fresh junk h radio)
  unfolding receive
  receive-IsHandler link rx fresh junk h radio hands room stale rx_bytes ok =
      Returns-then (λ (r : Reception × link.Radio). IsBytes r.0.buffer) (IsHandlerOf link.Radio)
        (link.receive rx (packet_max_size + 9) 500 radio) _
        (hands rx (packet_max_size + 9) 500 radio rx_bytes)
        (λ r bytes.
          Returns-then IsHandler (IsHandlerOf link.Radio)
            (if r.0.received == 0 || not (r.0.error == lora_ok)
              then some h
              else accept fresh junk r.0.buffer h)
            _
            (Returns-either IsHandler (r.0.received == 0 || not (r.0.error == lora_ok)) (some h)
              (accept fresh junk r.0.buffer h) ok
              (accept-IsHandler fresh junk r.0.buffer h room stale bytes ok))
            (λ accepted good. good))
