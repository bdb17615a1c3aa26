-- ===== src/Lora/Radio.antt =====
-- lib/lora.cpp: `send`, `receive` and the interrupt handler, and the class as the radio of the
-- packet handler.
use hydro_lo_ra_shield.Base.{
  ℕ, ◌<◌, ◌≡◌, ◌⊎◌, inl, inr, refl, Bool, true, false, List, Option, none, some, arith, ◌==◌, ◌%◌,
  bit_and, u8, length, if◌then◌else◌,
}
use hydro_lo_ra_shield.Base.Fault.{◌>>=◌}
use hydro_lo_ra_shield.Spi.{Spi}
use hydro_lo_ra_shield.Link.{Link, Reception, lora_ok}
use hydro_lo_ra_shield.Driver.{read_register, reg_op_mode, opmode_tx}
use hydro_lo_ra_shield.Driver.Transfer.{lora_send_packet, lora_receive_packet_blocking}
use hydro_lo_ra_shield.Driver.Transfer.Send.{
  IsTransmitting, started, lora_send_packet_busy, lora_send_packet_idle,
}
use hydro_lo_ra_shield.Lora.{
  LoraMode, receiving, transmitting, Device, set_receive_mode, set_transmit_mode,
}
use native.Mathlib.Decide.{ℕ_discrete}

module _ (spi : Spi) where
  -- `LoRa::send`; the length is cut to a byte at the call of the driver.
  unfoldable pub send : List ℕ → ℕ → Device spi → Option (Bool × Device spi)
  send bytes len d = do
    (status, after) ← lora_send_packet spi d.lora bytes (u8 len) d.chip
    let sent : Device spi = record d { chip = after }
    some (
        if status == lora_ok
        then (true, set_transmit_mode spi sent)
        else (false, set_receive_mode spi sent))

  -- `LoRa::receive`; the driver does not look at the length of the buffer.
  unfoldable pub receive : (ℕ → List ℕ) → List ℕ → ℕ → Device spi → Option (Reception × Device spi)
  receive fresh buffer timeout d = do
    (got, after) ← lora_receive_packet_blocking spi fresh buffer timeout d.chip
    some (got, record d { chip = after })

  -- `if (mode == LoRaMode::Transmit)` of `SX1276_IRQ_Handle_Task`.
  unfoldable pub end_transmission : LoraMode → Device spi → Device spi
  end_transmission transmitting d = set_receive_mode spi d
  end_transmission receiving d = d

  -- `SX1276_IRQ_Handle_Task`, over `packetHandler.receive()`, which changes what the packet handler
  -- keeps as well.
  unfoldable pub irq_handle_task :
      {S : Type 0}
      → (Device spi → Option (S × Device spi))
      → S
      → Device spi
      → Option (S × Device spi)
  unfolding end_transmission
  irq_handle_task handler_receive kept d =
      let next = end_transmission d.mode d in
      elim next.mode [ receiving ↦ handler_receive next | transmitting ↦ some (kept, next) ]

  pub end_transmission-mode :
      (mode : LoraMode) (d : Device spi)
      → d.mode ≡ mode
      → (end_transmission mode d).mode ≡ receiving
  unfolding end_transmission set_receive_mode
  end_transmission-mode transmitting d e = refl
  end_transmission-mode receiving d e = e

  -- A transmission has ended: the handler sets the receive mode and then receives as well, so that
  -- an interrupt in either mode is followed by a receive.
  pub irq_handle_task_lem :
      {S : Type 0} (handler_receive : Device spi → Option (S × Device spi)) (kept : S)
      (d : Device spi)
      → irq_handle_task handler_receive kept d ≡ handler_receive (end_transmission d.mode d)
  unfolding irq_handle_task
  irq_handle_task_lem handler_receive kept d =
      rw (end_transmission-mode d.mode d refl, irq_handle_task) refl

  -- A buffer of at most 255 bytes is sent whole. When the chip was idle, all of the buffer is in the
  -- FIFO and the transmission started, `send` says so and the mode is that of transmitting; when
  -- it was transmitting, the chip goes back to the receive mode (what it was sending is broken
  -- off), and `send` returns false.
  pub send-cases :
      (bytes : List ℕ) (d : Device spi)
      → length bytes < 256
      → ((¬ IsTransmitting spi d.chip)
          × (send bytes (length bytes) d
              ≡ some (
                true,
                set_transmit_mode spi (record d {
                  chip =
                      started spi d.lora bytes
                        (length bytes)
                        (read_register spi reg_op_mode d.chip).1;
                }),
              )))
        ⊎ (IsTransmitting spi d.chip
            × (send bytes (length bytes) d
                ≡ some (
                  false,
                  set_receive_mode spi
                      (record d { chip = (read_register spi reg_op_mode d.chip).1 }),
                )))
  unfolding send
  send-cases bytes d small =
      elim (ℕ_discrete (bit_and (read_register spi reg_op_mode d.chip).0 opmode_tx) opmode_tx) [
        | yes busy ↦ inr (
          busy,
          rw
              (
                whole,
                lora_send_packet_busy spi d.lora bytes (length bytes) d.chip (omega arith) busy,
              )
              refl,
        )
        | no idle ↦ inl (
          idle,
          rw
              (
                whole,
                lora_send_packet_idle spi d.lora bytes (length bytes) d.chip (omega arith) idle,
              )
              refl,
        )
      ]
    where
      whole : length bytes % 256 ≡ length bytes
      whole = omega arith

-- `lora->send` as the packet handler calls it. A fault, which the buffers of the handler never give,
-- is a refusal here.
unfoldable pub try_send : (spi : Spi) → List ℕ → Device spi → Bool × Device spi
try_send spi buffer d = elim (send spi buffer (length buffer) d) [ none ↦ (false, d) | some r ↦ r ]

-- `sleep_for` of the packet handler.
unfoldable pub wait : (spi : Spi) → ℕ → Device spi → Device spi
wait spi ms d = record d { chip = spi.sleep ms d.chip }

-- The class as the radio of the packet handler.
unfoldable pub radio : (spi : Spi) → (ℕ → List ℕ) → Link
radio spi fresh = record {
  Radio = Device spi;
  send = try_send spi;
  receive = λ rx max_len timeout d. receive spi fresh rx timeout d;
  sleep = wait spi;
}
