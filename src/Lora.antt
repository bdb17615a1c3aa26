-- ===== src/Lora.antt =====
-- lib/lora.cpp and lib/lora.h: the class `LoRa`, which runs the driver and keeps the mode, and the
-- interrupt handler. The mutex is held for a whole operation, so each is one step; printing is left
-- out. What wiringPi answers is an argument.
pub mod Presets
pub mod Radio
pub mod Bytes
pub mod Air
use hydro_lo_ra_shield.Base.{
  ℕ, Bool, true, false, List, Option, none, some, ◌==◌, ◌&&◌, u8, length, if◌then◌else◌,
}
use hydro_lo_ra_shield.Base.State.{Stateful, ◌>>=◌, ◌>>◌, pure}
use hydro_lo_ra_shield.Spi.{Spi}
use hydro_lo_ra_shield.Link.{Link, Reception, lora_ok}
use hydro_lo_ra_shield.Driver.{
  Sx1276, lora_mode_sleep, lora_mode_receive_continuous, lora_enable_interrupt_rx_done,
  lora_enable_interrupt_tx_done, lora_base_frequency_eu, lora_bandwidth_62_5_khz,
  lora_bandwidth_125_khz, lora_coding_rate_4_5, lora_coding_rate_4_8,
}
use hydro_lo_ra_shield.Driver.Config.{
  lora_set_spreading_factor, lora_set_signal_bandwidth, lora_set_coding_rate, lora_set_tx_power,
  lora_set_preamble_length, lora_set_crc,
}
use hydro_lo_ra_shield.Driver.Transfer.{lora_send_packet, lora_receive_packet_blocking}
use hydro_lo_ra_shield.Driver.Init.{lora_init}

pub data LoraMode : Type 0 where
  receiving transmitting : LoraMode

-- The object with the chip that it drives; `mode` is the global variable.
pub record Device (spi : Spi) : Type 0 where
  pub mode : LoraMode
  pub lora : Sx1276
  pub chip : spi.Chip

module _ (spi : Spi) where
  -- The constructor, on a struct and a chip.
  unfoldable pub new : Sx1276 → spi.Chip → Device spi
  new lora chip = record { mode = receiving; lora = lora; chip = chip }

  unfoldable pub set_receive_mode : Device spi → Device spi
  set_receive_mode d = record d {
    mode = receiving;
    chip =
        ((lora_mode_receive_continuous spi d.lora >> lora_enable_interrupt_rx_done spi) d.chip).1;
  }

  unfoldable pub set_transmit_mode : Device spi → Device spi
  set_transmit_mode d = record d {
    mode = transmitting;
    chip = (lora_enable_interrupt_tx_done spi d.chip).1;
  }

  -- The settings of `set_long_range`, from the sleep mode on.
  unfoldable pub long_range : Sx1276 → Stateful spi.Chip (Unit {0})
  long_range lora = do
    lora_mode_sleep spi
    lora_set_spreading_factor spi 8
    lora_set_signal_bandwidth spi lora_bandwidth_62_5_khz
    lora_set_coding_rate spi lora_coding_rate_4_8
    lora_set_tx_power spi lora 20
    lora_set_preamble_length spi 10
    lora_set_crc spi 1

  unfoldable pub short_range : Sx1276 → Stateful spi.Chip (Unit {0})
  short_range lora = do
    lora_mode_sleep spi
    lora_set_spreading_factor spi 7
    lora_set_signal_bandwidth spi lora_bandwidth_125_khz
    lora_set_coding_rate spi lora_coding_rate_4_5
    lora_set_tx_power spi lora 10
    lora_set_preamble_length spi 5
    lora_set_crc spi 0

  unfoldable pub set_long_range : Device spi → Bool × Device spi
  unfolding long_range set_receive_mode
  set_long_range d = (true, set_receive_mode (record d { chip = (long_range d.lora d.chip).1 }))

  unfoldable pub set_short_range : Device spi → Bool × Device spi
  unfolding short_range set_receive_mode
  set_short_range d = (true, set_receive_mode (record d { chip = (short_range d.lora d.chip).1 }))

  -- `LoRa::init`: whether wiringPi could be set up, and the interrupt; the result of `lora_init` is
  -- not looked at.
  unfoldable pub init : Bool → Bool → Device spi → Device spi
  unfolding set_receive_mode
  init set_up hooked d =
      if set_up && hooked
      then (let started = lora_init spi lora_base_frequency_eu d.chip in
          set_receive_mode (record d { lora = started.0.1; chip = started.1 }))
      else d
