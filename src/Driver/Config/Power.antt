-- ===== src/Driver/Config/Power.antt =====
-- The transmit power and the payload checksum.
use hydro_lo_ra_shield.Base.{
  ℕ, ◌+◌, ◌-◌, ◌*◌, ◌/◌, ◌%◌, ◌≤◌, ◌<◌, ◌≡◌, ◌≢◌, refl, Bool, true, false, ltb, ◌==◌, if◌then◌else◌,
  arith, bit_and, bit_or, u8, bit_or_fields, bit_or_digit, bit_or-zero, bit_and_15, bit_and_odd,
  bit_and_double, ne→==,
}
use hydro_lo_ra_shield.Spi.{Spi, RegisterLaws}
use hydro_lo_ra_shield.Driver.{Sx1276, lora_pa_output_rfo}
use hydro_lo_ra_shield.Driver.Files.{
  put, Holds, read_register-reg, read_register-Holds, write_register-Holds,
}
use hydro_lo_ra_shield.Driver.Config.{clamp, ocp_value, set_ocp, lora_set_crc, lora_set_tx_power}
use hydro_lo_ra_shield.Driver.Config.Laws.{u8_if, clamp_bounds}

-- The file after `lora_set_crc`: bit 2 is set or cleared.
abbrev pub checked : ℕ → (ℕ → ℕ) → ℕ → ℕ
checked enable file =
    put 0x1e (file 0x1e / 8 * 8 + (if enable == 0 then 0 else 4) + file 0x1e % 4) file

set_bit_2 : (v : ℕ) → bit_or v 4 ≡ v / 8 * 8 + 4 + v % 4
set_bit_2 v = omega (
  arith,
  bit_or_digit v 4,
  bit_or_digit (v / 2) 2,
  bit_or_digit (v / 2 / 2) 1,
  bit_or-zero (v / 2 / 2 / 2),
)

clear_bit_2 : (v : ℕ) → v < 256 → bit_and v 0xfb ≡ v / 8 * 8 + v % 4
clear_bit_2 v h = omega (
  arith,
  bit_and_odd v 125,
  bit_and_odd (v / 2) 62,
  bit_and_double (v / 2 / 2) 31,
  bit_and_odd (v / 2 / 2 / 2) 15,
  bit_and_15 (v / 2 / 2 / 2 / 2),
)

-- The output power that PA_CONFIG and PA_DAC stand for on the boost pin, in dBm.
abbrev pub dbm : ℕ → ℕ → ℕ
dbm pa_config pa_dac = pa_config % 16 + 2 + (if pa_dac == 0x87 then 3 else 0)

-- The level as the chip counts it.
abbrev output : ℕ → ℕ
output kept = (if ltb 17 kept then kept - 3 else kept) - 2

output_small : (kept : ℕ) → kept ≤ 20 → output kept < 16
output_small kept h = ground arith

output_high : (kept : ℕ) → kept ≤ 20 → (128 + output kept) / 16 ≡ 8
output_high kept h = omega (arith, output_small kept h)

output_bits : (kept : ℕ) → kept ≤ 20 → u8 (bit_or 0x80 (output kept)) ≡ 128 + output kept
output_bits kept h = omega (
  arith,
  output_small kept h,
  bit_or_fields 7 1 (output kept) (omega (arith, output_small kept h)),
)

output-dbm :
    (kept : ℕ)
    → 2 ≤ kept
    → kept ≤ 20
    → dbm (128 + output kept) (if ltb 17 kept then 0x87 else 0x84) ≡ kept
output-dbm kept low high = ground arith

limit :
    (high : Bool)
    → u8 (bit_or 0x20 (ocp_value (if high then 140 else 97))) ≡ (if high then 49 else 42)
unfolding ocp_value clamp
limit true = refl
limit false = refl

module _ {spi : Spi} (laws : RegisterLaws spi) where
  pub lora_set_crc-Holds :
      (enable : ℕ) {chip : spi.Chip} {file : ℕ → ℕ}
      → Holds laws chip file
      → file 0x1e < 256
      → Holds laws (lora_set_crc spi enable chip).1 (checked enable file)
  unfolding lora_set_crc
  lora_set_crc-Holds enable {file = file} held small =
      write_register-Holds laws 0x1e _ refl
        (rw (read_register-reg laws 0x1e refl held) (bit (enable == 0)))
        (read_register-Holds laws 0x1e refl held)
    where
      bit :
          (off : Bool)
          → u8 (if off then bit_and (file 0x1e) 0xfb else bit_or (file 0x1e) 4)
            ≡ file 0x1e / 8 * 8 + (if off then 0 else 4) + file 0x1e % 4
      bit true = omega (arith, clear_bit_2 (file 0x1e) small)
      bit false = omega (arith, set_bit_2 (file 0x1e))

  -- On the boost pin the power is the requested level kept between 2 and 20 dBm, as PA_CONFIG and
  -- PA_DAC encode it, and the current limit goes with it (49 is 140 mA, 42 is 95 mA).
  pub lora_set_tx_power-Holds :
      (lora : Sx1276) (level : ℕ) {chip : spi.Chip} {file : ℕ → ℕ}
      → Holds laws chip file
      → lora.pa_mode ≢ lora_pa_output_rfo
      → (pa_config : ℕ) × (pa_dac : ℕ) × Holds laws (lora_set_tx_power spi lora level chip).1 (
          put 0x09 pa_config
            (put 0x0b (if ltb 17 (clamp 2 20 level) then 49 else 42) (put 0x4d pa_dac file)))
        × (dbm pa_config pa_dac ≡ clamp 2 20 level)
        × (pa_config / 16 ≡ 8)
  unfolding lora_set_tx_power set_ocp
  lora_set_tx_power-Holds lora level held boost = rw (ne→== lora.pa_mode 0 boost) (
    128 + output (clamp 2 20 level),
    (if ltb 17 (clamp 2 20 level) then 0x87 else 0x84),
    write_register-Holds laws 0x09 _ refl (output_bits _ (clamp_bounds 2 20 level (omega arith)).1)
        (write_register-Holds laws 0x0b _ refl (limit (ltb 17 (clamp 2 20 level))) (
          write_register-Holds laws 0x4d _ refl (u8_if _ 0x87 0x84 (omega arith) (omega arith))
            held)),
    output-dbm _ (clamp_bounds 2 20 level (omega arith)).0
        (clamp_bounds 2 20 level (omega arith)).1,
    output_high _ (clamp_bounds 2 20 level (omega arith)).1,
  )
