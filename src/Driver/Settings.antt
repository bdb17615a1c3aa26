-- ===== src/Driver/Settings.antt =====
-- lib/lora_sx1276.h: the return codes, the settings and their defaults.
use hydro_lo_ra_shield.Base.{ℕ}

abbrev pub lora_base_frequency_us : ℕ
lora_base_frequency_us = 915_000_000

abbrev pub lora_base_frequency_eu : ℕ
lora_base_frequency_eu = 868_000_000

abbrev pub lora_default_tx_power : ℕ
lora_default_tx_power = 17

abbrev pub lora_default_sf : ℕ
lora_default_sf = 7

abbrev pub lora_default_preamble_len : ℕ
lora_default_preamble_len = 10

abbrev pub lora_default_rx_addr : ℕ
lora_default_rx_addr = 0

abbrev pub lora_default_tx_addr : ℕ
lora_default_tx_addr = 0

abbrev pub lora_default_spi_timeout : ℕ
lora_default_spi_timeout = 1000

abbrev pub lora_compatible_version : ℕ
lora_compatible_version = 0x12

abbrev pub lora_crc_error : ℕ
lora_crc_error = 1

abbrev pub lora_timeout : ℕ
lora_timeout = 2

abbrev pub lora_invalid_header : ℕ
lora_invalid_header = 3

abbrev pub lora_error : ℕ
lora_error = 4

abbrev pub lora_busy : ℕ
lora_busy = 5

abbrev pub lora_empty : ℕ
lora_empty = 6

abbrev pub lora_pa_output_rfo : ℕ
lora_pa_output_rfo = 0

abbrev pub lora_pa_output_pa_boost : ℕ
lora_pa_output_pa_boost = 1

abbrev pub lora_coding_rate_4_5 : ℕ
lora_coding_rate_4_5 = 0x08

abbrev pub lora_coding_rate_4_6 : ℕ
lora_coding_rate_4_6 = 0x10

abbrev pub lora_coding_rate_4_7 : ℕ
lora_coding_rate_4_7 = 0x18

abbrev pub lora_coding_rate_4_8 : ℕ
lora_coding_rate_4_8 = 0x20

abbrev pub lora_bandwidth_62_5_khz : ℕ
lora_bandwidth_62_5_khz = 6

abbrev pub lora_bandwidth_125_khz : ℕ
lora_bandwidth_125_khz = 7
