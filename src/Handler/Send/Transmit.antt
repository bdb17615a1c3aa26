-- ===== src/Handler/Send/Transmit.antt =====
-- On a radio that is not busy for ever, the sending loops end, and each packet goes on the air once.
use hydro_lo_ra_shield.Base.{
  length, ℕ, zero, suc, ◌+◌, ◌≤◌, ◌<◌, ◌≡◌, refl, sym, ap, ◌∙◌, true, List, [], ◌∷◌, ◌++◌,
  append-nil, append_assoc, Option, some, arith, All, Bool-cases, inl, inr,
}
use hydro_lo_ra_shield.Packet.{Packet, IsPacket}
use hydro_lo_ra_shield.Packet.Wire.Laws.{bytes_of, length-bytes_of, encode_fits}
use hydro_lo_ra_shield.Link.{Link, LinkLaws, attempts}
use hydro_lo_ra_shield.Handler.Send.{send_until, send_pkt, transmit}

-- The frames of some packets, in order.
abbrev pub frames : (ℕ → ℕ) → List Packet → List (List ℕ)
frames gaps [] = []
frames gaps (p ∷ ps) = bytes_of (gaps 0) p ∷ frames (λ i. gaps (i + 1)) ps

module _ (link : Link) (laws : LinkLaws link) where
  open laws use {air, air-send, air-send_refused, air-sleep, patience, accepts}

  abbrev Sends : link.Radio → List (List ℕ) → Option link.Radio → Type 0
  Sends radio fs r = (after : link.Radio) × (r ≡ some after) × (air after ≡ air radio ++ fs)

  -- The loop ends by the first attempt that is accepted.
  send_until_ends :
      (n fuel : ℕ) (buffer : List ℕ) (radio : link.Radio)
      → n < fuel
      → length buffer < 256
      → (link.send buffer (attempts link n buffer radio)).0 ≡ true
      → Sends radio (buffer ∷ []) (send_until link fuel buffer radio)
  unfolding send_until attempts
  send_until_ends n zero buffer radio h small done = elim h [ ]
  send_until_ends zero (suc fuel) buffer radio h small done = (
    link.sleep 50 (link.send buffer radio).1,
    rw (done, send_until) refl,
    air-sleep 50 _ ∙ air-send buffer radio small done,
  )
  send_until_ends (suc n) (suc fuel) buffer radio h small done =
      elim (Bool-cases (link.send buffer radio).0) [
        | inl sent ↦ (
          link.sleep 50 (link.send buffer radio).1,
          rw (sent, send_until) refl,
          air-sleep 50 _ ∙ air-send buffer radio small sent,
        )
        | inr busy ↦
            let (after, ends, aired) =
              send_until_ends n fuel buffer (link.sleep 50 (link.send buffer radio).1) (omega arith)
                small done in
            (
              after,
              rw (busy, send_until) ends,
              aired
                  ∙ ap (λ fs. fs ++ buffer ∷ [])
                      (air-sleep 50 _ ∙ air-send_refused buffer radio small busy),
            )
      ]

  -- With fuel for the radio's patience, `send_pkt` ends, whatever the radio's state, and the
  -- packet's frame has gone on the air exactly once.
  pub send_pkt-air :
      (fuel gap : ℕ) (p : Packet) (radio : link.Radio)
      → patience ≤ fuel
      → IsPacket p
      → Sends radio (bytes_of gap p ∷ []) (send_pkt link fuel gap p radio)
  unfolding send_pkt
  send_pkt-air fuel gap p radio enough fits =
      let small : length (bytes_of gap p) < 256 =
        omega (arith, length-bytes_of gap fits, fits.lenght_fits) in
      let (n, soon, done) = accepts (bytes_of gap p) radio small in
      let (after, ends, aired) =
        send_until_ends n fuel (bytes_of gap p) radio (omega arith) small done in
      (link.sleep 50 after, rw (encode_fits gap fits) (rw ends refl), air-sleep 50 after ∙ aired)

  -- With fuel for the radio's patience, `transmit` ends, whatever the radio's state, and the frame
  -- of each of its packets, which are within their limits, has gone on the air exactly once, in
  -- their order.
  pub transmit-air :
      (fuel : ℕ) (gaps : ℕ → ℕ) (ps : List Packet) (radio : link.Radio)
      → patience ≤ fuel
      → All IsPacket ps
      → Sends radio (frames gaps ps) (transmit link fuel gaps ps radio)
  unfolding transmit
  transmit-air fuel gaps [] radio enough fits = (radio, refl, sym (append-nil (air radio)))
  transmit-air fuel gaps (p ∷ ps) radio enough fits =
      let (sent, first, aired) = send_pkt-air fuel (gaps 0) p radio enough fits.0 in
      let (after, next, all_aired) = transmit-air fuel (λ i. gaps (i + 1)) ps sent enough fits.1 in
      (
        after,
        rw first next,
        all_aired
            ∙ ap (λ fs. fs ++ frames (λ i. gaps (i + 1)) ps) aired
            ∙ append_assoc (air radio) (bytes_of (gaps 0) p ∷ []) (frames (λ i. gaps (i + 1)) ps),
      )
