-- ===== src/Driver/Transfer/Bytes.antt =====
-- What is received is bytes.
use hydro_lo_ra_shield.Base.{
  ℕ, ◌+◌, ◌-◌, not, List, [], ◌∷◌, Option, some, IsBytes, u8, if◌then◌else◌, load_bytes,
  store_bytes,
}
use hydro_lo_ra_shield.Base.Fault.{Returns, Returns->>=, Returns-then, Returns-either}
use hydro_lo_ra_shield.Spi.{Spi}
use hydro_lo_ra_shield.Link.{Reception}
use hydro_lo_ra_shield.Driver.{
  read_register, write_register, reg_irq_flags, irq_flags_rx_timeout, irq_flags_rx_done,
  irq_flags_valid_header, irq_flags_payload_crc_error, irq_flags_rx_all, lora_timeout, lora_empty,
  lora_invalid_header, lora_crc_error, reg_fifo_rx_current_addr, reg_fifo_addr_ptr,
}
use hydro_lo_ra_shield.Driver.Transfer.{
  has, read_fifo, read_packet, lora_pending_packet_length, lora_receive_packet, wait_available,
  lora_receive_packet_blocking,
}
use hydro_lo_ra_shield.Handler.Invariant.Frames.{load_bytes-IsBytes, store_bytes-IsBytes}

-- The SPI library reads bytes.
abbrev pub GivesBytes : Spi → Type 0
GivesBytes spi = (tx : List ℕ) (chip : spi.Chip) → IsBytes (spi.xfer tx chip).0

module _ (spi : Spi) (gives : GivesBytes spi) (fresh : ℕ → List ℕ) where
  abbrev FilledBytes : List ℕ × spi.Chip → Type 0
  FilledBytes r = IsBytes r.0

  abbrev pub ReceivedBytes : Reception × spi.Chip → Type 0
  ReceivedBytes r = IsBytes r.0.buffer

  read_fifo-FilledBytes :
      (buffer : List ℕ) (len : ℕ) (chip : spi.Chip)
      → IsBytes buffer
      → Returns FilledBytes (read_fifo spi fresh buffer len chip)
  unfolding read_fifo
  read_fifo-FilledBytes buffer len chip bytes =
      Returns->>= FilledBytes (store_bytes (0 ∷ []) (fresh (u8 (len + 1)))) _ (λ tx e.
        Returns-then _ FilledBytes (load_bytes 1 (u8 (len + 1) - 1) (spi.xfer tx chip).0) _
          (load_bytes-IsBytes 1 (u8 (len + 1) - 1) (spi.xfer tx chip).0 (gives tx chip))
          (λ got loaded.
            Returns-then _ FilledBytes (store_bytes got buffer) _
              (store_bytes-IsBytes got buffer loaded.1 bytes) (λ filled stored. stored.2)))

  read_packet-ReceivedBytes :
      (buffer : List ℕ) (chip : spi.Chip)
      → IsBytes buffer
      → Returns ReceivedBytes (read_packet spi fresh buffer chip)
  unfolding read_packet
  read_packet-ReceivedBytes buffer chip bytes =
      let (len, asked) = lora_pending_packet_length spi chip in
      let (offset, found) = read_register spi reg_fifo_rx_current_addr asked in
      let pointed = (write_register spi reg_fifo_addr_ptr offset found).1 in
      Returns-then FilledBytes ReceivedBytes (read_fifo spi fresh buffer len pointed) _
        (read_fifo-FilledBytes buffer len pointed bytes) (λ filled filled_bytes. filled_bytes)

  lora_receive_packet-ReceivedBytes :
      (buffer : List ℕ) (chip : spi.Chip)
      → IsBytes buffer
      → Returns ReceivedBytes (lora_receive_packet spi fresh buffer chip)
  unfolding lora_receive_packet
  lora_receive_packet-ReceivedBytes buffer chip bytes =
      let (state, seen) = read_register spi reg_irq_flags chip in
      let cleared = (write_register spi reg_irq_flags irq_flags_rx_all seen).1 in
      let stop : ℕ → Option (Reception × spi.Chip) =
        λ res. some (record { received = 0; error = res; buffer = buffer }, cleared) in
      let whole = read_packet spi fresh buffer cleared in
      let corrupt = has state irq_flags_payload_crc_error in
      let checked = if corrupt then stop lora_crc_error else whole in
      let no_header = not (has state irq_flags_valid_header) in
      let headed = if no_header then stop lora_invalid_header else checked in
      let nothing = not (has state irq_flags_rx_done) in
      Returns-either ReceivedBytes (has state irq_flags_rx_timeout) (stop lora_timeout)
        (if nothing then stop lora_empty else headed) bytes
        (Returns-either ReceivedBytes nothing (stop lora_empty) headed bytes (
          Returns-either ReceivedBytes no_header (stop lora_invalid_header) checked bytes (
            Returns-either ReceivedBytes corrupt (stop lora_crc_error) whole bytes
              (read_packet-ReceivedBytes buffer cleared bytes))))

  -- The buffer stays one of bytes.
  pub lora_receive_packet_blocking-ReceivedBytes :
      (buffer : List ℕ) (timeout : ℕ) (chip : spi.Chip)
      → IsBytes buffer
      → Returns ReceivedBytes (lora_receive_packet_blocking spi fresh buffer timeout chip)
  unfolding lora_receive_packet_blocking
  lora_receive_packet_blocking-ReceivedBytes buffer timeout chip bytes =
      lora_receive_packet-ReceivedBytes buffer (wait_available spi timeout chip) bytes
