-- ===== src/Driver/Transfer/Listening.antt =====
-- Receiving leaves the chip in the continuous receive mode.
use hydro_lo_ra_shield.Base.{
  ℕ, zero, suc, ◌+◌, ◌-◌, ◌≡◌, refl, ◌∙◌, not, List, [], ◌∷◌, arith, length, drop, leb, bit_and,
  bit_and_127, u8, load_bytes, store_bytes, Bool-cases, inl, inr, ◌==◌,
}
use hydro_lo_ra_shield.Base.Fault.{Returns, Returns->>=, Returns-then, Returns-either}
use hydro_lo_ra_shield.Spi.{Spi}
use hydro_lo_ra_shield.Link.{Reception}
use hydro_lo_ra_shield.Driver.{
  read_register, write_register, reg_irq_flags, irq_flags_rx_all, irq_flags_rx_timeout,
  irq_flags_rx_done, irq_flags_valid_header, irq_flags_payload_crc_error, reg_modem_config_1,
  reg_fifo_rx_current_addr,
}
use hydro_lo_ra_shield.Driver.Transfer.{
  has, read_fifo, lora_pending_packet_length, read_packet, lora_receive_packet,
  lora_is_packet_available, wait_available, lora_receive_packet_blocking,
}
use hydro_lo_ra_shield.Driver.Transfer.Air.{TransmitLaws}

-- A transfer that starts at the FIFO.
starts_at_fifo :
    (fresh : List ℕ)
    → Returns (λ tx. (rest : List ℕ) × (tx ≡ 0 ∷ rest)) (store_bytes (0 ∷ []) fresh)
unfolding store_bytes
starts_at_fifo fresh = elim (Bool-cases (leb 1 (length fresh))) [
  | inl room ↦ rw room (drop 1 fresh, refl)
  | inr small ↦ rw small tt
]

module _ {spi : Spi} (laws : TransmitLaws spi) where
  abbrev pub IsListening : spi.Chip → Type 0
  IsListening c = laws.mode c ≡ 0x85

  -- A reading that has left the chip in the receive mode.
  abbrev pub HasListened : (R : Type 0) → R × spi.Chip → Type 0
  HasListened R r = IsListening r.1

  pub read_register-IsListening :
      (a : ℕ) (c : spi.Chip) → IsListening c → IsListening (read_register spi a c).1
  unfolding read_register
  read_register-IsListening a c on =
      laws.mode-reads (bit_and a 0x7f) (0 ∷ []) c (omega (arith, bit_and_127 a)) on

  read_fifo-IsListening :
      (fresh : ℕ → List ℕ) (buffer : List ℕ) (len : ℕ) (c : spi.Chip)
      → IsListening c
      → Returns (HasListened (List ℕ)) (read_fifo spi fresh buffer len c)
  unfolding read_fifo
  read_fifo-IsListening fresh buffer len c on =
      let P = HasListened (List ℕ) in
      Returns-then (λ (tx : List ℕ). (rest : List ℕ) × (tx ≡ 0 ∷ rest)) P
        (store_bytes (0 ∷ []) (fresh (u8 (len + 1)))) _ (starts_at_fifo (fresh (u8 (len + 1))))
        (λ tx (rest, e).
          Returns->>= P (load_bytes 1 (u8 (len + 1) - 1) (spi.xfer tx c).0) _ (λ got f.
            Returns->>= P (store_bytes got buffer) _
              (λ filled g. rw e (laws.mode-reads 0 rest c (omega arith) on))))

  read_packet-IsListening :
      (fresh : ℕ → List ℕ) (buffer : List ℕ) (c : spi.Chip)
      → IsListening c
      → Returns (HasListened Reception) (read_packet spi fresh buffer c)
  unfolding read_packet lora_pending_packet_length write_register
  read_packet-IsListening fresh buffer c on =
      let asked =
        read_register-IsListening _ _ (read_register-IsListening reg_modem_config_1 c on) in
      let found = read_register-IsListening reg_fifo_rx_current_addr _ asked in
      Returns-then (HasListened (List ℕ)) (HasListened Reception) (read_fifo spi fresh buffer _ _) _
        (read_fifo-IsListening fresh buffer _ _
          (laws.mode-write 0x0d _ _ (omega arith) (omega arith) (omega arith) ∙ found))
        (λ r listened. listened)

  lora_receive_packet-IsListening :
      (fresh : ℕ → List ℕ) (buffer : List ℕ) (c : spi.Chip)
      → IsListening c
      → Returns (HasListened Reception) (lora_receive_packet spi fresh buffer c)
  unfolding lora_receive_packet write_register
  lora_receive_packet-IsListening fresh buffer c on =
      let P = HasListened Reception in
      let state = (read_register spi reg_irq_flags c).0 in
      let seen = read_register-IsListening reg_irq_flags c on in
      let cleared =
        laws.mode-write 0x12 (u8 irq_flags_rx_all) _ (omega arith) (omega arith) (omega arith)
        ∙ seen in
      Returns-either P (has state irq_flags_rx_timeout) _ _ cleared (
        Returns-either P (not (has state irq_flags_rx_done)) _ _ cleared (
          Returns-either P (not (has state irq_flags_valid_header)) _ _ cleared (
            Returns-either P (has state irq_flags_payload_crc_error) _ _ cleared
              (read_packet-IsListening fresh buffer _ cleared))))

  wait_available-IsListening :
      (left : ℕ) (c : spi.Chip) → IsListening c → IsListening (wait_available spi left c)
  unfolding wait_available lora_is_packet_available
  wait_available-IsListening zero c on = on
  wait_available-IsListening (suc left) c on =
      let seen = read_register-IsListening reg_irq_flags c on in
      elim (Bool-cases ((lora_is_packet_available spi c).0 == 0)) [
        | inl nothing ↦
            rw (nothing, wait_available)
              (wait_available-IsListening left (spi.sleep 1 (read_register spi reg_irq_flags c).1)
                (laws.mode-sleep 1 _ seen))
        | inr something ↦ rw (something, wait_available) seen
      ]

  -- `lora_receive_packet_blocking` leaves the chip in the continuous receive mode, if it was in it.
  pub lora_receive_packet_blocking-IsListening :
      (fresh : ℕ → List ℕ) (buffer : List ℕ) (timeout : ℕ) (c : spi.Chip)
      → IsListening c
      → Returns (HasListened Reception) (lora_receive_packet_blocking spi fresh buffer timeout c)
  unfolding lora_receive_packet_blocking
  lora_receive_packet_blocking-IsListening fresh buffer timeout c on =
      lora_receive_packet-IsListening fresh buffer (wait_available spi timeout c)
        (wait_available-IsListening timeout c on)
