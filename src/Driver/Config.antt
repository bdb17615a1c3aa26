-- ===== src/Driver/Config.antt =====
-- lib/lora_sx1276.cpp: the settings of the modem, each from the registers that it reads to those
-- that it writes.
pub mod Laws
pub mod Modem
pub mod Power
pub mod Timeout
use hydro_lo_ra_shield.Base.{
  ℕ, ◌+◌, ◌-◌, ◌*◌, ◌/◌, ◌^◌, Bool, true, false, not, ◌&&◌, if◌then◌else◌, ltb, leb, ◌==◌, bit_and,
  bit_or, u8, u16, u64, ◌<<<◌, ◌>>>◌,
}
use hydro_lo_ra_shield.Base.State.{Stateful, ◌>>=◌, ◌>>◌, pure}
use hydro_lo_ra_shield.Spi.{Spi}
use hydro_lo_ra_shield.Driver.{
  Sx1276, read_register, write_register, set_mode, lora_mode_sleep, lora_mode_standby,
  lora_mode_receive, lora_mode_receive_continuous, lora_mode_receive_single,
  lora_enable_interrupt_rx_done, lora_enable_interrupt_tx_done, lora_clear_interrupt_tx_done,
  lora_clear_interrupt_rx_all, reg_fifo, reg_op_mode, reg_frf_msb, reg_frf_mid, reg_frf_lsb,
  reg_pa_config, reg_ocp, reg_lna, reg_fifo_addr_ptr, reg_fifo_tx_base_addr, reg_fifo_rx_base_addr,
  reg_fifo_rx_current_addr, reg_irq_flags, reg_rx_nb_bytes, reg_pkt_snr_value, reg_pkt_rssi_value,
  reg_modem_config_1, reg_modem_config_2, reg_symb_timeout_lsb, reg_preamble_msb, reg_preamble_lsb,
  reg_payload_length, reg_modem_config_3, reg_detection_optimize, reg_detection_threshold,
  reg_dio_mapping_1, reg_version, reg_pa_dac, opmode_sleep, opmode_stdby, opmode_tx,
  opmode_rx_continuous, opmode_rx_single, opmode_long_range_mode, pa_dac_high_power,
  pa_dac_half_power, ocp_on, mc1_implicit_header_mode, mc2_crc_on, mc3_agcauto, mc3_mobile_node,
  irq_flags_rx_timeout, irq_flags_rx_done, irq_flags_payload_crc_error, irq_flags_valid_header,
  irq_flags_tx_done, irq_flags_rx_all, lora_base_frequency_us, lora_base_frequency_eu,
  lora_default_tx_power, lora_default_sf, lora_default_preamble_len, lora_default_rx_addr,
  lora_default_tx_addr, lora_default_spi_timeout, lora_compatible_version, lora_crc_error,
  lora_timeout, lora_invalid_header, lora_error, lora_busy, lora_empty, lora_pa_output_rfo,
  lora_pa_output_pa_boost, lora_coding_rate_4_5, lora_coding_rate_4_6, lora_coding_rate_4_7,
  lora_coding_rate_4_8, lora_bandwidth_62_5_khz, lora_bandwidth_125_khz,
}

-- A value kept between two bounds.
unfoldable pub clamp : ℕ → ℕ → ℕ → ℕ
clamp low high n = if ltb n low then low else if ltb high n then high else n

-- The current that `set_OCP` writes, from 45 to 240 mA.
unfoldable pub ocp_value : ℕ → ℕ
unfolding clamp
ocp_value imax =
    let capped = clamp 45 240 imax in
    if ltb capped 130 then (capped - 45) / 5 else (capped + 30) / 10

module _ (spi : Spi) where
  unfoldable pub set_ocp : ℕ → Stateful spi.Chip (Unit {0})
  unfolding ocp_value
  set_ocp imax = write_register spi reg_ocp (bit_or ocp_on (ocp_value imax))

  unfoldable pub set_low_data_rate_optimization : Stateful spi.Chip (Unit {0})
  set_low_data_rate_optimization = do
    mc1 ← read_register spi reg_modem_config_1
    mc2 ← read_register spi reg_modem_config_2
    let bandwidth = mc1 >>> 4
    let sf = mc2 >>> 4
    let mc3 =
        if leb 11 sf && bandwidth == lora_bandwidth_125_khz
        then bit_or mc3_agcauto mc3_mobile_node
        else mc3_agcauto
    write_register spi reg_modem_config_3 mc3

  unfoldable pub lora_set_implicit_header_mode : Stateful spi.Chip (Unit {0})
  lora_set_implicit_header_mode = do
    mc1 ← read_register spi reg_modem_config_1
    write_register spi reg_modem_config_1 (bit_or mc1 mc1_implicit_header_mode)

  -- `~MC1_IMPLICIT_HEADER_MODE`, cut to a byte, is 0xfe.
  unfoldable pub lora_set_explicit_header_mode : Stateful spi.Chip (Unit {0})
  lora_set_explicit_header_mode = do
    mc1 ← read_register spi reg_modem_config_1
    write_register spi reg_modem_config_1 (bit_and mc1 0xfe)

  unfoldable pub lora_set_tx_power : Sx1276 → ℕ → Stateful spi.Chip (Unit {0})
  unfolding clamp
  lora_set_tx_power lora level =
      if lora.pa_mode == lora_pa_output_rfo
      then write_register spi reg_pa_config (bit_or 0x70 (clamp 0 15 level))
      else (do
        let kept = clamp 2 20 level
        let high = ltb 17 kept
        write_register spi reg_pa_dac (if high then pa_dac_high_power else pa_dac_half_power)
        set_ocp (if high then 140 else 97)
        write_register spi reg_pa_config (bit_or 0x80 ((if high then kept - 3 else kept) - 2)))

  unfoldable pub lora_set_frequency : ℕ → Stateful spi.Chip (Unit {0})
  lora_set_frequency freq = do
    let frf = u64 (freq <<< 19) / 32_000_000
    write_register spi reg_frf_msb (frf >>> 16)
    write_register spi reg_frf_mid (bit_and frf 0xff00 >>> 8)
    write_register spi reg_frf_lsb (bit_and frf 0xff)

  unfoldable pub lora_set_signal_bandwidth : ℕ → Stateful spi.Chip (Unit {0})
  unfolding set_low_data_rate_optimization
  lora_set_signal_bandwidth bw = do
    mc1 ← read_register spi reg_modem_config_1
    write_register spi reg_modem_config_1 (bit_or (bit_and mc1 0x0f) (bw <<< 4))
    set_low_data_rate_optimization

  unfoldable pub lora_set_spreading_factor : ℕ → Stateful spi.Chip (Unit {0})
  unfolding clamp set_low_data_rate_optimization
  lora_set_spreading_factor sf = do
    let kept = clamp 6 12 sf
    let six = kept == 6
    write_register spi reg_detection_optimize (if six then 0xc5 else 0xc3)
    write_register spi reg_detection_threshold (if six then 0x0c else 0x0a)
    mc2 ← read_register spi reg_modem_config_2
    write_register spi reg_modem_config_2 (bit_or (bit_and mc2 0x0f) (kept <<< 4))
    set_low_data_rate_optimization

  -- `~MC2_CRC_ON`, cut to a byte, is 0xfb.
  unfoldable pub lora_set_crc : ℕ → Stateful spi.Chip (Unit {0})
  lora_set_crc enable = do
    mc2 ← read_register spi reg_modem_config_2
    write_register spi reg_modem_config_2
        (if enable == 0 then bit_and mc2 0xfb else bit_or mc2 mc2_crc_on)

  unfoldable pub lora_set_coding_rate : ℕ → Stateful spi.Chip (Unit {0})
  lora_set_coding_rate rate = do
    mc1 ← read_register spi reg_modem_config_1
    write_register spi reg_modem_config_1 (bit_or mc1 (rate <<< 1))

  unfoldable pub lora_set_preamble_length : ℕ → Stateful spi.Chip (Unit {0})
  lora_set_preamble_length len = do
    write_register spi reg_preamble_msb (len >>> 8)
    write_register spi reg_preamble_lsb (bit_and len 0x0f)

  -- The bounds are the source's: above 1023 it takes 1024.
  unfoldable pub lora_set_rx_symbol_timeout : ℕ → Stateful spi.Chip (Unit {0})
  lora_set_rx_symbol_timeout symbols = do
    let least = if ltb symbols 4 then 4 else symbols
    let kept = if ltb 1023 least then 1024 else least
    write_register spi reg_symb_timeout_lsb (bit_and kept 0x0f)
    elim (ltb 255 kept) [
      | true ↦ (do
        mc2 ← read_register spi reg_modem_config_2
        write_register spi reg_modem_config_2 (bit_or mc2 (kept >>> 8)))
      | false ↦ pure tt
    ]
