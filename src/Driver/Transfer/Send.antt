-- ===== src/Driver/Transfer/Send.antt =====
-- What the ways to send report.
use hydro_lo_ra_shield.Base.{
  ℕ, zero, suc, ◌≤◌, ◌≡◌, ◌⊎◌, inl, inr, refl, List, ◌∷◌, some, arith, length, take, bit_and,
  load_bytes_in, Bool-cases, ne→==, ◌==◌, ==→eq, ==→ne,
}
use hydro_lo_ra_shield.Spi.{Spi}
use hydro_lo_ra_shield.Link.{lora_ok}
use hydro_lo_ra_shield.Driver.{
  lora_clear_interrupt_tx_done, opmode_stdby, write_register, reg_fifo_addr_ptr,
  reg_fifo_tx_base_addr, reg_payload_length, Sx1276, read_register, reg_op_mode, opmode_tx,
  set_mode, lora_busy, lora_timeout, reg_irq_flags, irq_flags_tx_done,
}
use hydro_lo_ra_shield.Driver.Transfer.{
  blocking, has, lora_is_transmitting, load_packet, write_fifo, lora_send_packet_base,
  lora_send_packet, wait_sent, lora_send_packet_blocking,
}

module _ (spi : Spi) where
  -- The blocking wait ends with one of two codes.
  wait_sent_codes :
      (timeout : ℕ) (chip : spi.Chip)
      → ((wait_sent spi timeout chip).0 ≡ lora_ok) ⊎ ((wait_sent spi timeout chip).0 ≡ lora_timeout)
  unfolding wait_sent
  wait_sent_codes zero chip = inr refl
  wait_sent_codes (suc left) chip =
      elim (Bool-cases (has (read_register spi reg_irq_flags chip).0 irq_flags_tx_done)) [
        | inl done ↦ inl (rw (done, wait_sent) refl)
        | inr waits ↦
            rw (waits, wait_sent)
              (wait_sent_codes left (spi.sleep 1 (read_register spi reg_irq_flags chip).1))
      ]

  -- The chip says that it is transmitting.
  abbrev pub IsTransmitting : spi.Chip → Type 0
  IsTransmitting chip = bit_and (read_register spi reg_op_mode chip).0 opmode_tx ≡ opmode_tx

  module _ (lora : Sx1276) (bytes : List ℕ) (data_len : ℕ) where
    -- The chip with the FIFO and the length set for the packet.
    abbrev pub prepared : spi.Chip → spi.Chip
    prepared ready =
        let cleared = lora_clear_interrupt_tx_done spi (set_mode spi opmode_stdby ready).1 in
        let pointed = write_register spi reg_fifo_addr_ptr lora.tx_base_addr cleared.1 in
        let based = write_register spi reg_fifo_tx_base_addr lora.tx_base_addr pointed.1 in
        (write_register spi reg_payload_length data_len based.1).1

    -- The bytes are in the FIFO, in one transfer, and the transmission has been started.
    abbrev pub started : spi.Chip → spi.Chip
    started ready =
        (set_mode spi opmode_tx (spi.xfer (0x80 ∷ take data_len bytes) (prepared ready)).1).1

  module _ (lora : Sx1276) (bytes : List ℕ) (data_len : ℕ) (chip : spi.Chip)
      (fits : data_len ≤ length bytes) where
    load_packet-blocking :
        (ready : spi.Chip)
        → load_packet spi lora bytes data_len blocking ready
          ≡ some (lora_ok, started lora bytes data_len ready)
    unfolding load_packet write_fifo
    load_packet-blocking ready = rw (load_bytes_in 0 data_len bytes (omega arith)) refl

    pub lora_send_packet_busy :
        IsTransmitting chip
        → lora_send_packet spi lora bytes data_len chip
          ≡ some (lora_busy, (read_register spi reg_op_mode chip).1)
    unfolding lora_send_packet lora_send_packet_base lora_is_transmitting
    lora_send_packet_busy busy = rw busy refl

    pub lora_send_packet_idle :
        ¬ IsTransmitting chip
        → lora_send_packet spi lora bytes data_len chip
          ≡ some (lora_ok, started lora bytes data_len (read_register spi reg_op_mode chip).1)
    unfolding lora_send_packet lora_send_packet_base lora_is_transmitting
    lora_send_packet_idle idle =
        rw (ne→== _ _ idle) (load_packet-blocking (read_register spi reg_op_mode chip).1)

    -- The blocking send, of no more bytes than there are, returns `LORA_OK` or `LORA_TIMEOUT` and
    -- no other code; when the chip is transmitting it returns `LORA_TIMEOUT` at once, after one
    -- register read.
    pub lora_send_packet_blocking_codes :
        (timeout : ℕ)
        → (status : ℕ) × (after : spi.Chip) × (lora_send_packet_blocking spi lora bytes data_len
              timeout chip
            ≡ some (status, after))
          × ((status ≡ lora_ok) ⊎ (status ≡ lora_timeout))
          × (IsTransmitting chip
              → (status ≡ lora_timeout) × (after ≡ (read_register spi reg_op_mode chip).1))
    unfolding lora_send_packet_blocking
    lora_send_packet_blocking_codes timeout =
        elim (Bool-cases (bit_and (read_register spi reg_op_mode chip).0 opmode_tx == opmode_tx)) [
          | inl busy ↦ (
            lora_timeout,
            (read_register spi reg_op_mode chip).1,
            rw (lora_send_packet_busy (==→eq _ _ busy)) refl,
            inr refl,
            λ _. (refl, refl),
          )
          | inr idle ↦
              let sent : spi.Chip =
                started lora bytes data_len (read_register spi reg_op_mode chip).1 in
              (
                (wait_sent spi timeout sent).0,
                (wait_sent spi timeout sent).1,
                rw (lora_send_packet_idle (==→ne _ _ idle)) refl,
                wait_sent_codes timeout sent,
                λ busy. absurd (==→ne _ _ idle busy),
              )
        ]
