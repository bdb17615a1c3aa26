-- ===== src/Tests/Drivers.antt =====
-- The theorems on the driver and on the class `LoRa`, applied at a concrete chip.
use hydro_lo_ra_shield.Base.{
  ◌≢◌, ℕ, ◌+◌, ◌*◌, ◌/◌, ◌%◌, ◌<◌, ◌≡◌, ◌↔◌, ◌⊎◌, refl, List, [], ◌∷◌, some, none, bit_or, ◌==◌,
  if◌then◌else◌, arith, ltb, u8, length, replicate, length-replicate,
}
use hydro_lo_ra_shield.Link.{lora_ok}
use hydro_lo_ra_shield.Driver.{Sx1276, read_register, write_register, reg_op_mode, lora_timeout}
use hydro_lo_ra_shield.Driver.{lora_compatible_version, lora_error}
use hydro_lo_ra_shield.Driver.Init.{lora_version, lora_init, defaults}
use hydro_lo_ra_shield.Driver.Init.Laws.{IsInitialised, lora_init-Holds}
use hydro_lo_ra_shield.Driver.Files.{put, Holds}
use hydro_lo_ra_shield.Driver.Config.{
  clamp, lora_set_spreading_factor, lora_set_coding_rate, lora_set_frequency, lora_set_tx_power,
  lora_set_rx_symbol_timeout,
}
use hydro_lo_ra_shield.Driver.Config.Laws.{lora_set_spreading_factor-Holds}
use hydro_lo_ra_shield.Driver.Config.Modem.{lora_set_coding_rate-Holds, lora_set_frequency-Holds}
use hydro_lo_ra_shield.Driver.Config.Timeout.{lora_set_rx_symbol_timeout-Holds}
use hydro_lo_ra_shield.Driver.Config.Power.{dbm, lora_set_tx_power-Holds}
use hydro_lo_ra_shield.Driver.Transfer.{
  lora_receive_packet, lora_pending_packet_length, has, lora_send_packet_blocking,
}
use hydro_lo_ra_shield.Driver.Transfer.Fifo.{IsSized}
use hydro_lo_ra_shield.Driver.Transfer.Receive.{IsWhole, pending, lora_receive_packet_fault_iff}
use hydro_lo_ra_shield.Driver.Transfer.Send.{IsTransmitting, lora_send_packet_blocking_codes}
use hydro_lo_ra_shield.Lora.{receiving, Device, set_long_range, set_short_range}
use hydro_lo_ra_shield.Lora.Presets.{IsPreset, presets-IsPreset}
use hydro_lo_ra_shield.Tests.Chips.{toy_spi, toy_register_laws, chip_xfer, length-answer, toy-Holds}

-- The registers: 125 kHz with coding rate 1, spreading factor 7, a whole packet of 9 bytes.
abbrev regs : ℕ → ℕ
regs a =
    if a == 0x1d
    then 0x72
    else if a == 0x1e
    then 0x70
    else if a == 0x12
    then 0x50
    else if a == 0x13
    then 9
    else 0

regs-Holds : Holds toy_register_laws regs (λ a. u8 (regs a))
regs-Holds = toy-Holds regs

abbrev driver : Sx1276
driver = record {
  spi_timeout = 1000;
  frequency = 868_000_000;
  pa_mode = 1;
  tx_base_addr = 0;
  rx_base_addr = 0;
}

lora_set_spreading_factor-Holds_example :
    toy_register_laws.reg (lora_set_spreading_factor toy_spi 12 regs).1 0x26 ≡ 12
unfolding clamp
lora_set_spreading_factor-Holds_example =
    lora_set_spreading_factor-Holds toy_register_laws 12 regs-Holds 0x26 refl

lora_set_coding_rate-Holds_example :
    (mc1 : ℕ) × Holds toy_register_laws
      (lora_set_coding_rate toy_spi 0x20 regs).1
      (put 0x1d mc1 (λ a. u8 (regs a)))
    × (mc1 % 16 ≡ 2)
    × (mc1 / 16 ≡ 7)
lora_set_coding_rate-Holds_example =
    lora_set_coding_rate-Holds toy_register_laws 0x20 regs-Holds refl (omega arith)

lora_set_frequency-Holds_example :
    (msb : ℕ) × (mid : ℕ) × (lsb : ℕ) × Holds toy_register_laws
      (lora_set_frequency toy_spi 868_000_000 regs).1
      (put 0x08 lsb (put 0x07 mid (put 0x06 msb (λ a. u8 (regs a)))))
    × (msb < 256)
    × (mid < 256)
    × (lsb < 256)
    × (msb * 65536 + mid * 256 + lsb ≡ 14221312)
lora_set_frequency-Holds_example =
    lora_set_frequency-Holds toy_register_laws 868_000_000 regs-Holds (omega arith)

lora_set_tx_power-Holds_example :
    (pa_config : ℕ) × (pa_dac : ℕ) × Holds toy_register_laws
      (lora_set_tx_power toy_spi driver 19 regs).1
      (put 0x09 pa_config
        (put 0x0b (if ltb 17 (clamp 2 20 19) then 49 else 42) (put 0x4d pa_dac (λ a. u8 (regs a)))))
    × (dbm pa_config pa_dac ≡ clamp 2 20 19)
    × (pa_config / 16 ≡ 8)
lora_set_tx_power-Holds_example =
    lora_set_tx_power-Holds toy_register_laws driver 19 regs-Holds (omega arith)

lora_set_rx_symbol_timeout-Holds_example :
    (mc2 : ℕ) × Holds toy_register_laws
      (lora_set_rx_symbol_timeout toy_spi 300 regs).1
      (put 0x1e mc2 (put 0x1f 12 (λ a. u8 (regs a))))
    × (mc2 / 4 ≡ 28)
    × ((mc2 % 4 * 256 + 12 ≡ 300) ↔ ((300 / 16 % 16 ≡ 0) × (bit_or 0 1 ≡ 1)))
lora_set_rx_symbol_timeout-Holds_example =
    lora_set_rx_symbol_timeout-Holds toy_register_laws 300 regs-Holds (omega arith) (omega arith)

abbrev device : Device toy_spi
device = record { mode = receiving; lora = driver; chip = regs }

presets-IsPreset_example :
    ((far : ℕ → ℕ) × Holds toy_register_laws (set_long_range toy_spi device).1.chip far
      × IsPreset 8 6 20 10 1 0x72 far
      × ((set_long_range toy_spi device).1.mode ≡ receiving))
    × ((near : ℕ → ℕ) × Holds toy_register_laws (set_short_range toy_spi device).1.chip near
        × IsPreset 7 7 10 5 0 0x72 near
        × ((set_short_range toy_spi device).1.mode ≡ receiving))
presets-IsPreset_example = presets-IsPreset toy_register_laws device regs-Holds (omega arith)

abbrev zeros : ℕ → List ℕ
zeros n = replicate n 0

length-chip_xfer : (tx : List ℕ) (c : ℕ → ℕ) → length (chip_xfer tx c).0 ≡ length tx
length-chip_xfer [] c = refl
length-chip_xfer (a ∷ []) c = refl
length-chip_xfer (a ∷ v ∷ []) c = ground arith
length-chip_xfer (a ∷ v ∷ w ∷ tx) c = length-answer (a ∷ v ∷ w ∷ tx) 0

toy-IsSized : IsSized toy_spi zeros
toy-IsSized = record { length-xfer = length-chip_xfer; length-fresh = λ n. length-replicate n 0 }

pending_nine : pending toy_spi zeros (zeros 4) regs ≡ 9
unfolding lora_pending_packet_length read_register write_register has
pending_nine = refl

-- A packet of 9 bytes and a buffer of 4.
lora_receive_packet_fault_iff_example :
    (lora_receive_packet toy_spi zeros (zeros 4) regs ≡ none) ↔ (
      IsWhole toy_spi zeros (zeros 4) regs
      × ((length (zeros 4) < pending toy_spi zeros (zeros 4) regs)
          ⊎ (pending toy_spi zeros (zeros 4) regs ≡ 255)))
lora_receive_packet_fault_iff_example =
    lora_receive_packet_fault_iff toy_spi zeros (zeros 4) regs toy-IsSized
      (omega (arith, pending_nine))

lora_send_packet_blocking_codes_example :
    (status : ℕ) × (after : toy_spi.Chip) × (lora_send_packet_blocking toy_spi driver
        (1 ∷ 2 ∷ [])
        2
        5
        regs
      ≡ some (status, after))
    × ((status ≡ lora_ok) ⊎ (status ≡ lora_timeout))
    × (IsTransmitting toy_spi regs
        → (status ≡ lora_timeout) × (after ≡ (read_register toy_spi reg_op_mode regs).1))
lora_send_packet_blocking_codes_example =
    lora_send_packet_blocking_codes toy_spi driver (1 ∷ 2 ∷ []) 2 regs (omega arith) 5

-- A chip of the right version.
abbrev regs_of_version : ℕ → ℕ
regs_of_version a = if a == 0x42 then 0x12 else regs a

lora_init-Holds_example :
    (((lora_version toy_spi regs_of_version).0 ≡ lora_compatible_version)
      × ((lora_init toy_spi 868_000_000 regs_of_version).0 ≡ (lora_ok, defaults 868_000_000))
      × (file : ℕ → ℕ) × Holds toy_register_laws
          (lora_init toy_spi 868_000_000 regs_of_version).1
          file
      × IsInitialised 868_000_000 (λ a. u8 (regs_of_version a)) file)
    ⊎ (((lora_version toy_spi regs_of_version).0 ≢ lora_compatible_version)
        × ((lora_init toy_spi 868_000_000 regs_of_version).0.0 ≡ lora_error)
        × Holds toy_register_laws
            (lora_init toy_spi 868_000_000 regs_of_version).1
            (λ a. u8 (regs_of_version a)))
lora_init-Holds_example =
    lora_init-Holds toy_register_laws 868_000_000 (λ b chip c. refl) (toy-Holds regs_of_version)
      (omega arith)
