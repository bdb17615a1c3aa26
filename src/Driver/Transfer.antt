-- ===== src/Driver/Transfer.antt =====
-- lib/lora_sx1276.cpp: sending and receiving packets, through the FIFO of the chip. `none` is an
-- access outside an array. `fresh` is what `new uint8_t[n]` returns.
pub mod Fifo
pub mod Receive
pub mod Send
pub mod Bytes
pub mod Listening
pub mod Air
use hydro_lo_ra_shield.Base.{
  ℕ, zero, suc, ◌+◌, ◌-◌, Bool, true, false, not, List, [], ◌∷◌, Option, none, some, if◌then◌else◌,
  ◌==◌, bit_and, bit_or, u8, load_bytes, store_bytes,
}
use hydro_lo_ra_shield.Base.State.{Stateful}
use hydro_lo_ra_shield.Base.Fault.{◌>>=◌}
use hydro_lo_ra_shield.Spi.{Spi}
use hydro_lo_ra_shield.Link.{Reception, lora_ok}
use hydro_lo_ra_shield.Driver.{
  Sx1276, read_register, write_register, set_mode, lora_clear_interrupt_tx_done, reg_fifo,
  reg_op_mode, reg_fifo_addr_ptr, reg_fifo_tx_base_addr, reg_fifo_rx_current_addr, reg_irq_flags,
  reg_rx_nb_bytes, reg_modem_config_1, reg_payload_length, opmode_stdby, opmode_tx,
  mc1_implicit_header_mode, irq_flags_rx_timeout, irq_flags_rx_done, irq_flags_payload_crc_error,
  irq_flags_valid_header, irq_flags_tx_done, irq_flags_rx_all, lora_crc_error, lora_timeout,
  lora_invalid_header, lora_busy, lora_empty,
}

-- `transfer_mode` of the two ways to send.
pub data TransferMode : Type 0 where
  dma blocking : TransferMode

-- `state & flag` as a test.
unfoldable pub has : ℕ → ℕ → Bool
has state flag = not (bit_and state flag == 0)

module _ (spi : Spi) where
  unfoldable pub write_fifo : List ℕ → ℕ → spi.Chip → Option spi.Chip
  write_fifo buffer len chip = do
    used ← load_bytes 0 len buffer
    some (spi.xfer (bit_or reg_fifo 0x80 ∷ used) chip).1

  -- The length is a byte, so that the array for 255 bytes is empty.
  unfoldable pub read_fifo : (ℕ → List ℕ) → List ℕ → ℕ → spi.Chip → Option (List ℕ × spi.Chip)
  read_fifo fresh buffer len chip = do
    let size = u8 (len + 1)
    tx ← store_bytes (reg_fifo ∷ []) (fresh size)
    let (rx, after) = spi.xfer tx chip
    got ← load_bytes 1 (size - 1) rx
    filled ← store_bytes got buffer
    some (filled, after)

  -- 5, `LORA_BUSY`, in the middle of a transmission, else 0.
  unfoldable pub lora_is_transmitting : Stateful spi.Chip ℕ
  lora_is_transmitting chip =
      let (opmode, after) = read_register spi reg_op_mode chip in
      (if bit_and opmode opmode_tx == opmode_tx then lora_busy else lora_ok, after)

  -- From the standby mode to the start of the transmission.
  unfoldable pub load_packet : Sx1276 → List ℕ → ℕ → TransferMode → spi.Chip → Option (ℕ × spi.Chip)
  unfolding write_fifo
  load_packet lora bytes data_len mode chip = do
    let standby = set_mode spi opmode_stdby chip
    let cleared = lora_clear_interrupt_tx_done spi standby.1
    let pointed = write_register spi reg_fifo_addr_ptr lora.tx_base_addr cleared.1
    let based = write_register spi reg_fifo_tx_base_addr lora.tx_base_addr pointed.1
    let sized = write_register spi reg_payload_length data_len based.1
    loaded ← write_fifo bytes data_len sized.1
    elim mode [
      | dma ↦ some (lora_ok, loaded)
      | blocking ↦ some (lora_ok, (set_mode spi opmode_tx loaded).1)
    ]

  unfoldable pub lora_send_packet_base :
      Sx1276 → List ℕ → ℕ → TransferMode → spi.Chip → Option (ℕ × spi.Chip)
  unfolding lora_is_transmitting load_packet
  lora_send_packet_base lora bytes data_len mode chip =
      let (status, seen) = lora_is_transmitting chip in
      if status == 0 then load_packet lora bytes data_len mode seen else some (lora_busy, seen)

  unfoldable pub lora_send_packet : Sx1276 → List ℕ → ℕ → spi.Chip → Option (ℕ × spi.Chip)
  lora_send_packet lora bytes data_len = lora_send_packet_base lora bytes data_len blocking

  unfoldable pub lora_send_packet_dma_start : Sx1276 → List ℕ → ℕ → spi.Chip → Option (ℕ × spi.Chip)
  lora_send_packet_dma_start lora bytes data_len = lora_send_packet_base lora bytes data_len dma

  -- `while (elapsed < timeout)` of the blocking send, on the milliseconds left.
  unfoldable pub wait_sent : ℕ → Stateful spi.Chip ℕ
  unfolding has
  wait_sent zero chip = (lora_timeout, chip)
  wait_sent (suc left) chip =
      let (state, seen) = read_register spi reg_irq_flags chip in
      elim (has state irq_flags_tx_done) [
        | true ↦ (lora_ok, (write_register spi reg_irq_flags irq_flags_tx_done seen).1)
        | false ↦ wait_sent left (spi.sleep 1 seen)
      ]

  unfoldable pub lora_send_packet_blocking :
      Sx1276 → List ℕ → ℕ → ℕ → spi.Chip → Option (ℕ × spi.Chip)
  unfolding wait_sent lora_send_packet
  lora_send_packet_blocking lora bytes data_len timeout chip = do
    (res, sent) ← lora_send_packet lora bytes data_len chip
    if res == lora_ok then some (wait_sent timeout sent) else some (lora_timeout, sent)

  unfoldable pub lora_is_packet_available : Stateful spi.Chip ℕ
  lora_is_packet_available chip =
      let (irqs, after) = read_register spi reg_irq_flags chip in
      (bit_and irqs (bit_or irq_flags_rx_done irq_flags_rx_timeout), after)

  unfoldable pub lora_pending_packet_length : Stateful spi.Chip ℕ
  unfolding has
  lora_pending_packet_length chip =
      let (mc1, seen) = read_register spi reg_modem_config_1 chip in
      read_register spi
        (if has mc1 mc1_implicit_header_mode then reg_payload_length else reg_rx_nb_bytes) seen

  -- A packet has been received: its length is asked for, and the FIFO is read from its start.
  unfoldable pub read_packet : (ℕ → List ℕ) → List ℕ → spi.Chip → Option (Reception × spi.Chip)
  unfolding read_fifo lora_pending_packet_length
  read_packet fresh buffer chip = do
    let (len, asked) = lora_pending_packet_length chip
    let (offset, found) = read_register spi reg_fifo_rx_current_addr asked
    let pointed = write_register spi reg_fifo_addr_ptr offset found
    (filled, after) ← read_fifo fresh buffer len pointed.1
    some (record { received = len; error = lora_ok; buffer = filled }, after)

  -- `lora_receive_packet_base`; both transfer modes do the same, and `buffer_len` is not read.
  unfoldable pub lora_receive_packet :
      (ℕ → List ℕ) → List ℕ → spi.Chip → Option (Reception × spi.Chip)
  unfolding has read_packet
  lora_receive_packet fresh buffer chip =
      let (state, seen) = read_register spi reg_irq_flags chip in
      let cleared = write_register spi reg_irq_flags irq_flags_rx_all seen in
      let stop : ℕ → Option (Reception × spi.Chip) =
        λ res. some (record { received = 0; error = res; buffer = buffer }, cleared.1) in
      if has state irq_flags_rx_timeout
      then stop lora_timeout
      else if not (has state irq_flags_rx_done)
      then stop lora_empty
      else if not (has state irq_flags_valid_header)
      then stop lora_invalid_header
      else if has state irq_flags_payload_crc_error
      then stop lora_crc_error
      else read_packet fresh buffer cleared.1

  -- `while (elapsed < timeout)` of the blocking receive, on the milliseconds left.
  unfoldable pub wait_available : ℕ → spi.Chip → spi.Chip
  wait_available zero chip = chip
  wait_available (suc left) chip =
      let (available, seen) = lora_is_packet_available chip in
      elim (available == 0) [ true ↦ wait_available left (spi.sleep 1 seen) | false ↦ seen ]

  unfoldable pub lora_receive_packet_blocking :
      (ℕ → List ℕ) → List ℕ → ℕ → spi.Chip → Option (Reception × spi.Chip)
  unfolding wait_available lora_receive_packet
  lora_receive_packet_blocking fresh buffer timeout chip =
      lora_receive_packet fresh buffer (wait_available timeout chip)

  unfoldable pub lora_receive_packet_dma_start :
      (ℕ → List ℕ) → List ℕ → spi.Chip → Option (Reception × spi.Chip)
  lora_receive_packet_dma_start fresh buffer = lora_receive_packet fresh buffer

  -- The two functions for the end of a DMA transfer throw.
  unfoldable pub lora_send_packet_dma_complete : spi.Chip → Option spi.Chip
  lora_send_packet_dma_complete chip = none

  unfoldable pub lora_receive_packet_dma_complete : spi.Chip → Option spi.Chip
  lora_receive_packet_dma_complete chip = none
