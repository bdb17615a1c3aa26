-- ===== src/Driver/Transfer/Receive.antt =====
-- What `lora_receive_packet` reports, and when it leaves its arrays.
use hydro_lo_ra_shield.Base.{
  some-ne-none, ℕ, ◌≤◌, ◌<◌, ◌≡◌, ◌≢◌, ◌↔◌, ◌⊎◌, inl, inr, refl, sym, ap, ◌∙◌, true, false, List,
  none, some, arith, length, Bool-cases,
}
use native.Mathlib.Decide.{dec_le}
use hydro_lo_ra_shield.Base.Fault.{◌>>=◌}
use hydro_lo_ra_shield.Spi.{Spi}
use hydro_lo_ra_shield.Link.{Reception, lora_ok}
use hydro_lo_ra_shield.Driver.{
  read_register, write_register, reg_irq_flags, irq_flags_rx_all, irq_flags_rx_timeout,
  irq_flags_rx_done, irq_flags_valid_header, irq_flags_payload_crc_error, reg_fifo_rx_current_addr,
  reg_fifo_addr_ptr,
}
use hydro_lo_ra_shield.Driver.Transfer.{
  has, read_fifo, read_packet, lora_pending_packet_length, lora_receive_packet,
}
use hydro_lo_ra_shield.Driver.Transfer.Fifo.{
  IsSized, sent, read_fifo_in, read_fifo_out, read_fifo_wraps,
}

module _ (spi : Spi) (fresh : ℕ → List ℕ) (buffer : List ℕ) (chip : spi.Chip) where
  -- The flags that the receive finds.
  abbrev pub flags : ℕ
  flags = (read_register spi reg_irq_flags chip).0

  -- The flags of a packet that has come in whole.
  pub record IsWhole : Type 0 where
    pub in_time : has flags irq_flags_rx_timeout ≡ false
    pub finished : has flags irq_flags_rx_done ≡ true
    pub header : has flags irq_flags_valid_header ≡ true
    pub intact : has flags irq_flags_payload_crc_error ≡ false

  -- The chip once the flags are cleared.
  abbrev pub cleared : spi.Chip
  cleared =
      (write_register spi reg_irq_flags irq_flags_rx_all (read_register spi reg_irq_flags chip).1).1

  abbrev pub Reported : Type 0
  Reported =
      (IsWhole × (lora_receive_packet spi fresh buffer chip ≡ read_packet spi fresh buffer cleared))
      ⊎ ((res : ℕ) × (res ≢ lora_ok)
          × (lora_receive_packet spi fresh buffer chip
              ≡ some (record { received = 0; error = res; buffer = buffer }, cleared)))

  lora_receive_packet_stops :
      (res : ℕ)
      → res ≢ lora_ok
      → lora_receive_packet spi fresh buffer chip
        ≡ some (record { received = 0; error = res; buffer = buffer }, cleared)
      → Reported
  lora_receive_packet_stops res bad e = inr (res, bad, e)

  -- The outcome of a receive: a whole packet is read from the FIFO; otherwise an error other than
  -- `LORA_OK` is reported, with length 0 and the buffer as it was.
  pub lora_receive_packet-cases : Reported
  unfolding lora_receive_packet
  lora_receive_packet-cases = elim (Bool-cases (has flags irq_flags_rx_timeout)) [
    | inl late ↦ lora_receive_packet_stops 2 (omega arith) (rw late refl)
    | inr in_time ↦ elim (Bool-cases (has flags irq_flags_rx_done)) [
      | inr empty ↦ lora_receive_packet_stops 6 (omega arith) (rw (in_time, empty) refl)
      | inl finished ↦ elim (Bool-cases (has flags irq_flags_valid_header)) [
        | inr bad ↦ lora_receive_packet_stops 3 (omega arith) (rw (in_time, finished, bad) refl)
        | inl header ↦ elim (Bool-cases (has flags irq_flags_payload_crc_error)) [
          | inl crc ↦
              lora_receive_packet_stops 1 (omega arith) (rw (in_time, finished, header, crc) refl)
          | inr intact ↦ inl (
            record { in_time = in_time; finished = finished; header = header; intact = intact },
            rw (in_time, finished, header, intact) refl,
          )
        ]
      ]
    ]
  ]

  -- The length that the chip gives for the packet.
  abbrev pub pending : ℕ
  pending = (lora_pending_packet_length spi cleared).0

  module _ (sized : IsSized spi fresh) where
    -- The chip once the FIFO is set to the start of the packet.
    abbrev pointed : spi.Chip
    pointed =
        let asked = lora_pending_packet_length spi cleared in
        let found = read_register spi reg_fifo_rx_current_addr asked.1 in
        (write_register spi reg_fifo_addr_ptr found.0 found.1).1

    read_packet-read_fifo : read_packet spi fresh buffer cleared ≡ (
        read_fifo spi fresh buffer pending pointed >>= λ t.
        some (record { received = pending; error = lora_ok; buffer = t.0 }, t.1))
    unfolding read_packet
    read_packet-read_fifo = refl

    read_packet_in :
        pending < 255
        → pending ≤ length buffer
        → (r : Reception × spi.Chip) × (read_packet spi fresh buffer cleared ≡ some r)
    read_packet_in small fits =
        let (filled, e) = read_fifo_in spi fresh sized buffer pending pointed small fits in
        (
          (
            record { received = pending; error = lora_ok; buffer = filled },
            (spi.xfer (sent spi fresh sized buffer pending) pointed).1,
          ),
          read_packet-read_fifo ∙ rw e refl,
        )

    read_packet_out :
        (length buffer < pending) ⊎ (pending ≡ 255)
        → pending < 256
        → read_packet spi fresh buffer cleared ≡ none
    read_packet_out bad small =
        read_packet-read_fifo
        ∙ ap
            (λ o.
              o >>= λ t. some (record { received = pending; error = lora_ok; buffer = t.0 }, t.1))
            (fault (dec_le 255 pending))
      where
        wraps : 255 ≤ pending → pending ≡ 255
        wraps top = omega arith

        fault : Dec (255 ≤ pending) → read_fifo spi fresh buffer pending pointed ≡ none
        fault (yes top) =
            ap (λ n. read_fifo spi fresh buffer n pointed) (wraps top)
            ∙ read_fifo_wraps spi fresh sized buffer pointed
        fault (no below) =
            read_fifo_out spi fresh sized buffer pending pointed (omega arith)
              (ground (arith, bad, below))

  lora_receive_packet_whole :
      IsWhole → lora_receive_packet spi fresh buffer chip ≡ read_packet spi fresh buffer cleared
  unfolding lora_receive_packet
  lora_receive_packet_whole w = rw (w.in_time, w.finished, w.header, w.intact) refl

  -- `lora_receive_packet` leaves its arrays exactly when a whole packet has come in that is longer
  -- than the buffer, or is of 255 bytes, where the length of the transfer wraps around to 0; the
  -- length of the buffer, which the caller hands over, is not looked at.
  pub lora_receive_packet_fault_iff :
      IsSized spi fresh
      → pending < 256
      → (lora_receive_packet spi fresh buffer chip ≡ none)
        ↔ (IsWhole × ((length buffer < pending) ⊎ (pending ≡ 255)))
  lora_receive_packet_fault_iff sized small = (
    λ fault. elim lora_receive_packet-cases [
      | inl (w, e) ↦ (w, overruns (sym e ∙ fault))
      | inr (res, bad, e) ↦ absurd (some-ne-none (sym e ∙ fault))
    ],
    λ h. lora_receive_packet_whole h.0 ∙ read_packet_out sized h.1 small,
  )
    where
      overruns :
          read_packet spi fresh buffer cleared ≡ none → (length buffer < pending) ⊎ (pending ≡ 255)
      overruns fault = elim (dec_le 255 pending) [
        | yes top ↦ inr (omega arith)
        | no below ↦ elim (dec_le pending (length buffer)) [
          | yes fits ↦
              absurd (some-ne-none (sym (read_packet_in sized (omega arith) fits).1 ∙ fault))
          | no over ↦ inl (omega arith)
        ]
      ]

      some-ne-none : {A : Type 0} {a : A} → some a ≡ none → ⊥
      some-ne-none e = cc
