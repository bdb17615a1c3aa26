-- ===== src/Driver.antt =====
-- lib/lora_sx1276.cpp and lib/lora_sx1276.h: the driver of the SX1276 chip. Here are its state and
-- its access to the registers, the modes and the interrupts; the children are the settings, the
-- transfer of packets and the start.
mod Registers
mod Settings
pub use Registers.*
pub use Settings.*
pub mod Files
pub mod Config
pub mod Transfer
pub mod Init
use hydro_lo_ra_shield.Base.{ℕ, List, [], ◌∷◌, bit_and, bit_or, get_or, u8}
use hydro_lo_ra_shield.Base.State.{Stateful, ◌>>=◌, ◌>>◌, pure}
use hydro_lo_ra_shield.Spi.{Spi}

-- `lora_sx1276`, less the pointer to the bus.
pub record Sx1276 : Type 0 where
  pub spi_timeout : ℕ
  pub frequency : ℕ
  pub pa_mode : ℕ
  pub tx_base_addr : ℕ
  pub rx_base_addr : ℕ

module _ (spi : Spi) where
  -- `CLEAR_BIT(address, BIT_7)`, and the second byte of the answer.
  unfoldable pub read_register : ℕ → Stateful spi.Chip ℕ
  read_register address chip =
      let answer = spi.xfer (bit_and address 0x7f ∷ 0 ∷ []) chip in (get_or answer.0 1 0, answer.1)

  -- `SET_BIT(address, BIT_7)`; the value is a `uint8_t` parameter.
  unfoldable pub write_register : ℕ → ℕ → Stateful spi.Chip (Unit {0})
  write_register address value chip = (tt, (spi.xfer (bit_or address 0x80 ∷ u8 value ∷ []) chip).1)

  unfoldable pub set_mode : ℕ → Stateful spi.Chip (Unit {0})
  set_mode mode = write_register reg_op_mode (bit_or opmode_long_range_mode mode)

  unfoldable pub lora_mode_sleep : Stateful spi.Chip (Unit {0})
  lora_mode_sleep = set_mode opmode_sleep

  unfoldable pub lora_mode_standby : Stateful spi.Chip (Unit {0})
  lora_mode_standby = set_mode opmode_stdby

  -- What the two receive modes do before they set the mode: the base address of the FIFO, and the
  -- flags cleared.
  unfoldable pub lora_mode_receive : ℕ → Sx1276 → Stateful spi.Chip (Unit {0})
  lora_mode_receive mode lora = do
    write_register reg_fifo_rx_base_addr lora.rx_base_addr
    write_register reg_irq_flags irq_flags_rx_all
    set_mode mode

  unfoldable pub lora_mode_receive_continuous : Sx1276 → Stateful spi.Chip (Unit {0})
  lora_mode_receive_continuous = lora_mode_receive opmode_rx_continuous

  unfoldable pub lora_mode_receive_single : Sx1276 → Stateful spi.Chip (Unit {0})
  lora_mode_receive_single = lora_mode_receive opmode_rx_single

  unfoldable pub lora_enable_interrupt_rx_done : Stateful spi.Chip (Unit {0})
  lora_enable_interrupt_rx_done = write_register reg_dio_mapping_1 0x00

  unfoldable pub lora_enable_interrupt_tx_done : Stateful spi.Chip (Unit {0})
  lora_enable_interrupt_tx_done = write_register reg_dio_mapping_1 0x40

  unfoldable pub lora_clear_interrupt_tx_done : Stateful spi.Chip (Unit {0})
  lora_clear_interrupt_tx_done = write_register reg_irq_flags irq_flags_tx_done

  unfoldable pub lora_clear_interrupt_rx_all : Stateful spi.Chip (Unit {0})
  lora_clear_interrupt_rx_all = write_register reg_irq_flags irq_flags_rx_all
