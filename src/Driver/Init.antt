-- ===== src/Driver/Init.antt =====
-- lib/lora_sx1276.cpp: the version, the measurements and `lora_init`.
pub mod Laws
use hydro_lo_ra_shield.Base.{
  ℕ, zero, suc, List, [], ◌∷◌, Bool, ◌+◌, ◌-◌, ◌/◌, ◌^◌, true, false, if◌then◌else◌, ltb, ◌==◌,
  bit_or, u8, u32,
}
use hydro_lo_ra_shield.Base.State.{Stateful, ◌>>=◌, ◌>>◌, pure}
use hydro_lo_ra_shield.Spi.{Spi}
use hydro_lo_ra_shield.Driver.{
  Sx1276, read_register, write_register, lora_mode_sleep, lora_mode_standby, reg_lna,
  reg_pkt_snr_value, reg_pkt_rssi_value, reg_modem_config_3, reg_version, lora_default_tx_power,
  lora_default_sf, lora_default_preamble_len, lora_default_rx_addr, lora_default_tx_addr,
  lora_default_spi_timeout, lora_compatible_version, lora_error, lora_pa_output_pa_boost,
}
use hydro_lo_ra_shield.Driver.Config.{
  lora_set_explicit_header_mode, lora_set_tx_power, lora_set_frequency, lora_set_spreading_factor,
  lora_set_preamble_length,
}
use hydro_lo_ra_shield.Link.{lora_ok}

-- The struct as `lora_init` fills it.
unfoldable pub defaults : ℕ → Sx1276
defaults freq = record {
  spi_timeout = lora_default_spi_timeout;
  frequency = u32 freq;
  pa_mode = lora_pa_output_pa_boost;
  tx_base_addr = lora_default_tx_addr;
  rx_base_addr = lora_default_rx_addr;
}

module _ (spi : Spi) where
  unfoldable pub lora_version : Stateful spi.Chip ℕ
  lora_version = read_register spi reg_version

  -- The `int8_t` of the difference, as the byte that holds it.
  unfoldable pub lora_packet_rssi : Sx1276 → Stateful spi.Chip ℕ
  lora_packet_rssi lora = do
    rssi ← read_register spi reg_pkt_rssi_value
    pure (u8 (rssi + 2 ^ 32 - (if ltb lora.frequency 868_000_000 then 164 else 157)))

  unfoldable pub lora_packet_snr : Stateful spi.Chip ℕ
  lora_packet_snr = do snr ← read_register spi reg_pkt_snr_value; pure (snr / 5)

  -- What `lora_init` does once the version is right.
  unfoldable pub configure : Sx1276 → ℕ → Stateful spi.Chip (Unit {0})
  configure lora freq = do
    lora_mode_sleep spi
    lora_mode_sleep spi
    lora_set_frequency spi freq
    lora_set_spreading_factor spi lora_default_sf
    lora_set_preamble_length spi lora_default_preamble_len
    lora_set_explicit_header_mode spi
    current_lna ← read_register spi reg_lna
    write_register spi reg_lna (bit_or current_lna 0x03)
    write_register spi reg_modem_config_3 0x04
    lora_set_tx_power spi lora lora_default_tx_power
    lora_mode_standby spi

  -- `lora_init` from the test of the version on.
  unfoldable pub init_if : Bool → ℕ → Stateful spi.Chip (ℕ × Sx1276)
  unfolding configure defaults
  init_if true freq = do configure (defaults freq) freq; pure (lora_ok, defaults freq)
  init_if false freq = pure (lora_error, defaults freq)

  unfoldable pub lora_init : ℕ → Stateful spi.Chip (ℕ × Sx1276)
  unfolding init_if lora_version
  lora_init freq chip =
      let (ver, seen) = lora_version chip in init_if (ver == lora_compatible_version) freq seen

  -- `n` registers from an address on, as they are read.
  unfoldable pub dump_from : ℕ → ℕ → Stateful spi.Chip (List ℕ)
  dump_from addr zero = pure []
  dump_from addr (suc n) = do
    val ← read_register spi addr
    rest ← dump_from (addr + 1) n
    pure (val ∷ rest)

  -- `dump_registers`, as the list of what it prints.
  unfoldable pub dump_registers : Stateful spi.Chip (List ℕ)
  unfolding dump_from
  dump_registers = dump_from 0x00 0x65
