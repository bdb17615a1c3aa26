-- ===== src/Main/Returns.antt =====
-- A round of the housekeeping thread returns, when the complete messages are not too short.
use hydro_lo_ra_shield.Base.{
  ◌+◌, ℕ, ◌*◌, ◌^◌, ◌≤◌, ◌<◌, ◌≡◌, true, List, [], ◌∷◌, arith, All, All-append, Bool-cases, inl,
  inr, length, length-append, length-take, load_bytes_in, ==→eq,
}
use hydro_lo_ra_shield.Base.Fault.{Returns_lem, Succeeds, Succeeds-then}
use hydro_lo_ra_shield.Packet.{Packet, IsPacket, content}
use hydro_lo_ra_shield.Entries.{MessageEntry, Messages}
use hydro_lo_ra_shield.Padding.{Delivery}
use hydro_lo_ra_shield.Padding.Delivered.{Fits}
use hydro_lo_ra_shield.Aes.{Aes, AesLaws}
use hydro_lo_ra_shield.Handler.{Handler}
use hydro_lo_ra_shield.Handler.Send.Fragments.{join}
use hydro_lo_ra_shield.Handler.Poll.{is_complete, process, poll_entries, poll}
use hydro_lo_ra_shield.Handler.Poll.Total.{Delivers, process-Delivers}
use hydro_lo_ra_shield.Handler.Invariant.{IsOf, IsEntry, IsHandler}
use hydro_lo_ra_shield.Handler.Invariant.Poll.{HasVector, process-HasVector}
use hydro_lo_ra_shield.UnixSocket.{Os, Socket}
use hydro_lo_ra_shield.Main.{forward, forward_all, house_keeping}

-- The fragments of a message, once they are all there, carry at least 16 bytes.
abbrev pub IsLong : MessageEntry × List Packet → Type 0
IsLong (key, ps) = is_complete ps ≡ true → 16 ≤ length (join ps)

IsOf-IsPacket : (id : ℕ) (ps : List Packet) → All (IsOf id) ps → All IsPacket ps
IsOf-IsPacket id [] h = tt
IsOf-IsPacket id (p ∷ ps) h = (h.0.0, IsOf-IsPacket id ps h.1)

length-join_le : (ps : List Packet) → All IsPacket ps → length (join ps) ≤ length ps * 119
length-join_le [] h = omega arith
length-join_le (p ∷ ps) h = omega (
  arith,
  length-append (content p) (join ps),
  length-take p.lenght p.payload,
  h.0.lenght_fits,
  length-join_le ps h.1,
)

-- A complete message has at most 255 fragments.
is_complete-le :
    (ps : List Packet) → All IsPacket ps → is_complete ps ≡ true → length (join ps) < 2 ^ 32
unfolding is_complete
is_complete-le [] h e = omega arith
is_complete-le (p ∷ ps) h e =
    omega (
      arith,
      length-join_le (p ∷ ps) h,
      ==→eq p.total_fragments (length (p ∷ ps)) e,
      h.0.total_fits,
    )

-- The loop's result with what it delivers.
abbrev AllDelivers : {aes : Aes} → Handler aes × Messages × List Delivery → Type 0
AllDelivers r = All Fits r.2

module _ {aes : Aes} (laws : AesLaws aes) where
  poll_entries-AllDelivers :
      (dangling : ℕ → ℕ) (m : Messages) (h : Handler aes)
      → ((i : ℕ) → dangling i ≤ 16)
      → length h.iv ≡ 16
      → All IsEntry m
      → All IsLong m
      → Succeeds (AllDelivers {aes = aes}) (poll_entries dangling m h)
  unfolding poll_entries
  poll_entries-AllDelivers dangling [] h reused size entries long = tt
  poll_entries-AllDelivers dangling ((key, ps) ∷ rest) h reused size (entry, others)
        (long, others_long) =
      elim (Bool-cases (is_complete ps)) [
        | inr more ↦
            rw (more, Succeeds, poll_entries)
              (Succeeds-then (AllDelivers {aes = aes}) (AllDelivers {aes = aes})
                (poll_entries (λ i. dangling (i + 1)) rest h) _
                (poll_entries-AllDelivers (λ i. dangling (i + 1)) rest h (λ i. reused (i + 1)) size
                  others others_long)
                (λ t e fits. fits))
        | inl done ↦
            let packets = IsOf-IsPacket key.id ps entry.2 in
            rw (done, Succeeds, poll_entries)
              (Succeeds-then Delivers (AllDelivers {aes = aes}) (process (dangling 0) ps h) _
                (process-Delivers laws (dangling 0) (reused 0) ps h size packets (long done)
                  (is_complete-le ps packets done))
                (λ r e fits.
                  Succeeds-then (AllDelivers {aes = aes}) (AllDelivers {aes = aes})
                    (poll_entries (λ i. dangling (i + 1)) rest r.0) _
                    (poll_entries-AllDelivers (λ i. dangling (i + 1)) rest r.0 (λ i. reused (i + 1))
                      (Returns_lem (HasVector (List Delivery)) (process (dangling 0) ps h)
                        (process-HasVector (dangling 0) ps h size) e)
                      others others_long)
                    (λ t f others_fit. All-append Fits r.1 t.2 fits others_fit)))
      ]

module _ {aes : Aes} (laws : AesLaws aes) (dangling : ℕ → ℕ)
    (reused : (i : ℕ) → dangling i ≤ 16) where
  poll-Delivers :
      (h : Handler aes) → IsHandler h → All IsLong h.received → Succeeds Delivers (poll dangling h)
  unfolding poll
  poll-Delivers h ok long =
      Succeeds-then (AllDelivers {aes = aes}) Delivers (poll_entries dangling h.received h) _
        (poll_entries-AllDelivers laws dangling h.received h reused ok.vector_size ok.received_ok.0
          long)
        (λ t e fits. fits)

  module _ {os : Os} where
    abbrev AnySocket : Socket os → Type 0
    AnySocket s = Unit

    forward_all-returns :
        (ds : List Delivery) (s : Socket os) → All Fits ds → Succeeds AnySocket (forward_all ds s)
    unfolding forward_all forward
    forward_all-returns [] s fits = tt
    forward_all-returns (d ∷ ds) s fits =
        rw (load_bytes_in 0 d.len d.bytes (omega (arith, fits.0)), Succeeds, forward_all)
          (forward_all-returns ds _ fits.1)

    abbrev AnyState : Handler aes × Socket os → Type 0
    AnyState r = Unit

    -- The round returns, over a handler that meets the invariant.
    pub house_keeping-returns :
        (now : ℕ) (h : Handler aes) (s : Socket os)
        → IsHandler h
        → All IsLong h.received
        → Succeeds AnyState (house_keeping dangling now h s)
    unfolding house_keeping
    house_keeping-returns now h s ok long =
        Succeeds-then Delivers AnyState (poll dangling h) _ (poll-Delivers h ok long) (λ r e fits.
          Succeeds-then AnySocket AnyState (forward_all r.1 s) _ (forward_all-returns r.1 s fits)
            (λ told f any. tt))
