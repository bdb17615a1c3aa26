-- ===== src/Driver/Registers.antt =====
-- lib/lora_sx1276.cpp: the addresses of the registers and the bits in them.
use hydro_lo_ra_shield.Base.{ℕ}

abbrev pub reg_fifo : ℕ
reg_fifo = 0x00

abbrev pub reg_op_mode : ℕ
reg_op_mode = 0x01

abbrev pub reg_frf_msb : ℕ
reg_frf_msb = 0x06

abbrev pub reg_frf_mid : ℕ
reg_frf_mid = 0x07

abbrev pub reg_frf_lsb : ℕ
reg_frf_lsb = 0x08

abbrev pub reg_pa_config : ℕ
reg_pa_config = 0x09

abbrev pub reg_ocp : ℕ
reg_ocp = 0x0b

abbrev pub reg_lna : ℕ
reg_lna = 0x0c

abbrev pub reg_fifo_addr_ptr : ℕ
reg_fifo_addr_ptr = 0x0d

abbrev pub reg_fifo_tx_base_addr : ℕ
reg_fifo_tx_base_addr = 0x0e

abbrev pub reg_fifo_rx_base_addr : ℕ
reg_fifo_rx_base_addr = 0x0f

abbrev pub reg_fifo_rx_current_addr : ℕ
reg_fifo_rx_current_addr = 0x10

abbrev pub reg_irq_flags : ℕ
reg_irq_flags = 0x12

abbrev pub reg_rx_nb_bytes : ℕ
reg_rx_nb_bytes = 0x13

abbrev pub reg_pkt_snr_value : ℕ
reg_pkt_snr_value = 0x19

abbrev pub reg_pkt_rssi_value : ℕ
reg_pkt_rssi_value = 0x1a

abbrev pub reg_modem_config_1 : ℕ
reg_modem_config_1 = 0x1d

abbrev pub reg_modem_config_2 : ℕ
reg_modem_config_2 = 0x1e

abbrev pub reg_symb_timeout_lsb : ℕ
reg_symb_timeout_lsb = 0x1f

abbrev pub reg_preamble_msb : ℕ
reg_preamble_msb = 0x20

abbrev pub reg_preamble_lsb : ℕ
reg_preamble_lsb = 0x21

abbrev pub reg_payload_length : ℕ
reg_payload_length = 0x22

abbrev pub reg_modem_config_3 : ℕ
reg_modem_config_3 = 0x26

abbrev pub reg_detection_optimize : ℕ
reg_detection_optimize = 0x31

abbrev pub reg_detection_threshold : ℕ
reg_detection_threshold = 0x37

abbrev pub reg_dio_mapping_1 : ℕ
reg_dio_mapping_1 = 0x40

abbrev pub reg_version : ℕ
reg_version = 0x42

abbrev pub reg_pa_dac : ℕ
reg_pa_dac = 0x4d

abbrev pub opmode_sleep : ℕ
opmode_sleep = 0x00

abbrev pub opmode_stdby : ℕ
opmode_stdby = 0x01

abbrev pub opmode_tx : ℕ
opmode_tx = 0x03

abbrev pub opmode_rx_continuous : ℕ
opmode_rx_continuous = 0x05

abbrev pub opmode_rx_single : ℕ
opmode_rx_single = 0x06

abbrev pub opmode_long_range_mode : ℕ
opmode_long_range_mode = 0x80

abbrev pub pa_dac_high_power : ℕ
pa_dac_high_power = 0x87

abbrev pub pa_dac_half_power : ℕ
pa_dac_half_power = 0x84

abbrev pub ocp_on : ℕ
ocp_on = 0x20

abbrev pub mc1_implicit_header_mode : ℕ
mc1_implicit_header_mode = 0x01

abbrev pub mc2_crc_on : ℕ
mc2_crc_on = 0x04

abbrev pub mc3_agcauto : ℕ
mc3_agcauto = 0x04

abbrev pub mc3_mobile_node : ℕ
mc3_mobile_node = 0x08

abbrev pub irq_flags_rx_timeout : ℕ
irq_flags_rx_timeout = 0x80

abbrev pub irq_flags_rx_done : ℕ
irq_flags_rx_done = 0x40

abbrev pub irq_flags_payload_crc_error : ℕ
irq_flags_payload_crc_error = 0x20

abbrev pub irq_flags_valid_header : ℕ
irq_flags_valid_header = 0x10

abbrev pub irq_flags_tx_done : ℕ
irq_flags_tx_done = 0x08

abbrev pub irq_flags_rx_all : ℕ
irq_flags_rx_all = 0xf0
