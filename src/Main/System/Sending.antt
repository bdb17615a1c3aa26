-- ===== src/Main/System/Sending.antt =====
-- The steps of `send`: over outgoing packets that are within their limits none of them faults, and
-- each leaves such packets.
use hydro_lo_ra_shield.Base.{
  ℕ, ◌+◌, ◌^◌, ◌<◌, ◌≢◌, refl, sym, List, [], ◌∷◌, arith, All, true, false, u8,
}
use hydro_lo_ra_shield.Base.Fault.{
  Returns, Returns->>=, Returns-then, Returns_lem, Succeeds, Succeeds-then, Succeeds-Returns,
}
use hydro_lo_ra_shield.Packet.{Packet, IsPacket, type_code}
use hydro_lo_ra_shield.Packet.Wire.{encode}
use hydro_lo_ra_shield.Packet.Wire.Laws.{encode_fits}
use hydro_lo_ra_shield.Entries.{MessageEntry, slot, push_all}
use hydro_lo_ra_shield.Padding.Laws.{pad_lem, padded}
use hydro_lo_ra_shield.Aes.{Aes, AesLaws}
use hydro_lo_ra_shield.Link.{Link}
use hydro_lo_ra_shield.Lora.Radio.{radio}
use hydro_lo_ra_shield.Handler.{Handler}
use hydro_lo_ra_shield.Handler.Invariant.Outgoing.{
  IsKept, push_all-IsKept, slot-IsPacket, touch-IsKept,
}
use hydro_lo_ra_shield.Handler.Send.{handshake_packet}
use hydro_lo_ra_shield.Handler.Send.Fragments.{IsStale}
use hydro_lo_ra_shield.Handler.Send.Steps.{
  Job, greeting, transmitting, Stage, idle, trying, waiting, resting, next_frame, begin_send, go_on,
  send_step,
}
use hydro_lo_ra_shield.Exchange.Fragmented.{fragments-total}
use hydro_lo_ra_shield.Exchange.Sending.{Run-IsPacket, type_code-lt}
use hydro_lo_ra_shield.Exchange.Continued.{IsOutgoing}
use hydro_lo_ra_shield.Interface.{on_data}
use hydro_lo_ra_shield.Interface.Laws.{IsSmall, on_data-IsSmall, on_data-total, IsAsked-size}
use hydro_lo_ra_shield.Main.System.{begin_request, IsMessage}

-- The message that `send` has still to make fragments of, or the fragments that it has still to
-- transmit.
abbrev pub IsJob : Job → Type 0
IsJob (greeting o iv_bytes) = IsOutgoing o
IsJob (transmitting entry pkts) = All IsPacket pkts

abbrev pub IsStage : Stage → Type 0
IsStage idle = Unit
IsStage (trying buffer job) = IsJob job
IsStage (waiting buffer succes job) = IsJob job
IsStage (resting job) = IsJob job

next_frame-IsStage :
    (entry : MessageEntry) (gap : ℕ) (pkts : List Packet)
    → All IsPacket pkts
    → Succeeds IsStage (next_frame entry gap pkts)
unfolding next_frame
next_frame-IsStage entry gap [] fits = tt
next_frame-IsStage entry gap (pkt ∷ pkts) fits =
    rw (encode_fits gap fits.0, Succeeds, next_frame) fits.1

module _ {aes : Aes} where
  -- The outgoing packets of a handler beside the stage of `send`.
  abbrev pub IsSound : Handler aes × Stage → Type 0
  IsSound r = All IsKept r.0.messages × IsStage r.1

  -- The same, with the radio.
  abbrev pub IsSoundAt : (R : Type 0) → Handler aes × R × Stage → Type 0
  IsSoundAt R r = All IsKept r.0.messages × IsStage r.2

  pub begin_request-IsSound :
      (message : List ℕ) (rands : ℕ → ℕ) (now : ℕ) (stale : List ℕ) (gap : ℕ) (h : Handler aes)
      → IsMessage message
      → All IsKept h.messages
      → Returns IsSound (begin_request message rands now stale gap h)
  unfolding begin_request begin_send
  begin_request-IsSound message rands now stale gap h (some_bytes, few, bytes) kept =
      let (r, asked, whole) = on_data-total message in
      let (pos, small, r_bytes) =
        Returns_lem IsSmall (on_data message) (on_data-IsSmall message some_bytes few bytes)
          asked in
      rw (asked, Returns, begin_request)
        (Returns->>= IsSound (handshake_packet (u8 (rands 0)) _ stale) _ (λ pkt f.
          Returns->>= IsSound (encode gap pkt) _ (λ buffer g. (
            kept,
            record {
              whole = sym (IsAsked-size message r whole);
              some_bytes = pos;
              carried = omega (arith, small);
              bytes = r_bytes;
              id_fits = omega arith;
            },
          ))))

  module _ (laws : AesLaws aes) where
    go_on-IsSound :
        (job : Job) (stale : ℕ → List ℕ) (gap : ℕ) (h : Handler aes)
        → IsJob job
        → IsStale stale
        → All IsKept h.messages
        → Succeeds IsSound (go_on job stale gap h)
    unfolding go_on
    go_on-IsSound (transmitting entry pkts) stale gap h fits rooms kept =
        Succeeds-then IsStage IsSound (next_frame entry gap pkts) _
          (next_frame-IsStage entry gap pkts fits) (λ stage e ok. (kept, ok))
    go_on-IsSound (greeting o iv_bytes) stale gap h ok rooms kept =
        let fits : o.size + 15 < 2 ^ 32 = omega (arith, ok.carried) in
        let buffer = padded o.message o.size ok.whole ok.some_bytes fits in
        let added = pad_lem o.message o.size ok.whole fits in
        let (pkts, made, run, joined, count) =
          fragments-total o.message o.size ok.whole ok.some_bytes ok.carried ok.bytes laws h.aes_ctx
            (type_code o.type) o.entry.id stale (type_code-lt o.type) ok.id_fits rooms buffer
            added in
        let filled = push_all o.entry pkts h.messages in
        let filled_kept : All IsKept filled =
          push_all-IsKept o.entry pkts h.messages
            (Run-IsPacket (type_code o.type) o.entry.id _ 0 pkts run) kept in
        rw (added, made, Succeeds, go_on)
          (Succeeds-then IsStage IsSound (next_frame o.entry gap (slot o.entry filled)) _
            (next_frame-IsStage o.entry gap (slot o.entry filled)
              (slot-IsPacket o.entry filled filled_kept))
            (λ stage e good. (touch-IsKept o.entry filled filled_kept, good)))

    pub send_step-IsSound :
        (link : Link) (stale : ℕ → List ℕ) (gap : ℕ) (h : Handler aes) (radio : link.Radio)
        (stage : Stage)
        → stage ≢ idle
        → IsStage stage
        → IsStale stale
        → All IsKept h.messages
        → Succeeds (IsSoundAt link.Radio) (send_step link stale gap (h, radio, stage))
    unfolding send_step
    send_step-IsSound link stale gap h radio idle busy ok rooms kept = busy refl
    send_step-IsSound link stale gap h radio (trying buffer job) busy ok rooms kept = (kept, ok)
    send_step-IsSound link stale gap h radio (waiting buffer true job) busy ok rooms kept =
        (kept, ok)
    send_step-IsSound link stale gap h radio (waiting buffer false job) busy ok rooms kept =
        (kept, ok)
    send_step-IsSound link stale gap h radio (resting job) busy ok rooms kept =
        Succeeds-then IsSound (IsSoundAt link.Radio) (go_on job stale gap h) _
          (go_on-IsSound job stale gap h ok rooms kept) (λ r e good. good)

    -- Where there is a step, it leaves such packets.
    pub send_step-Returns :
        (link : Link) (stale : ℕ → List ℕ) (gap : ℕ) (h : Handler aes) (radio : link.Radio)
        (stage : Stage)
        → IsStage stage
        → IsStale stale
        → All IsKept h.messages
        → Returns (IsSoundAt link.Radio) (send_step link stale gap (h, radio, stage))
    unfolding send_step
    send_step-Returns link stale gap h radio idle ok rooms kept = tt
    send_step-Returns link stale gap h radio (trying buffer job) ok rooms kept = (kept, ok)
    send_step-Returns link stale gap h radio (waiting buffer true job) ok rooms kept = (kept, ok)
    send_step-Returns link stale gap h radio (waiting buffer false job) ok rooms kept = (kept, ok)
    send_step-Returns link stale gap h radio (resting job) ok rooms kept =
        Returns-then IsSound (IsSoundAt link.Radio) (go_on job stale gap h) _
          (Succeeds-Returns IsSound (go_on job stale gap h)
            (go_on-IsSound job stale gap h ok rooms kept))
          (λ r good. good)
