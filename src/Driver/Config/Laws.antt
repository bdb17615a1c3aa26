-- ===== src/Driver/Config/Laws.antt =====
-- What the settings leave in the configuration registers of a chip that meets the laws.
use hydro_lo_ra_shield.Base.{
  ℕ, ◌+◌, ◌*◌, ◌/◌, ◌%◌, ◌≤◌, ◌<◌, ◌≡◌, refl, Bool, true, false, ◌&&◌, leb, ◌==◌, if◌then◌else◌,
  arith, bit_and, bit_or, u8, ◌<<<◌, bit_or_fields, bit_or_comm, bit_and_15,
}
use hydro_lo_ra_shield.Spi.{Spi, RegisterLaws}
use hydro_lo_ra_shield.Driver.Files.{
  put, Holds, read_register-reg, read_register-Holds, write_register-Holds,
}
use hydro_lo_ra_shield.Driver.Config.{
  clamp, set_low_data_rate_optimization, lora_set_spreading_factor,
}

-- The low data rate bit is for a spreading factor of at least 11 at 125 kHz.
abbrev pub slow : ℕ → ℕ → ℕ
slow mc1 mc2 = if leb 11 (mc2 / 16) && mc1 / 16 == 7 then 12 else 4

-- The file after `lora_set_spreading_factor`.
abbrev pub spread : ℕ → (ℕ → ℕ) → ℕ → ℕ
spread sf file =
    let kept = clamp 6 12 sf in
    let mc2 = kept * 16 + file 0x1e % 16 in
    put 0x26 (slow (file 0x1d) mc2) (
      put 0x1e mc2 (
        put 0x37 (if kept == 6 then 0x0c else 0x0a)
          (put 0x31 (if kept == 6 then 0xc5 else 0xc3) file)))

pub u8_if :
    (b : Bool) (m n : ℕ) → m < 256 → n < 256 → u8 (if b then m else n) ≡ (if b then m else n)
u8_if true m n p q = omega arith
u8_if false m n p q = omega arith

pub low_nibble : (v high : ℕ) → bit_or (bit_and v 0x0f) (high <<< 4) ≡ high * 16 + v % 16
low_nibble v high = omega (
  arith,
  bit_and_15 v,
  bit_or_comm (bit_and v 0x0f) (high <<< 4),
  bit_or_fields 4 high (bit_and v 0x0f) (omega (arith, bit_and_15 v)),
)

pub clamp_bounds :
    (low high n : ℕ) → low ≤ high → (low ≤ clamp low high n) × (clamp low high n ≤ high)
unfolding clamp
clamp_bounds low high n h = ground arith

module _ {spi : Spi} (laws : RegisterLaws spi) where
  pub set_low_data_rate_optimization-Holds :
      {chip : spi.Chip} {file : ℕ → ℕ}
      → Holds laws chip file
      → Holds laws
          (set_low_data_rate_optimization spi chip).1
          (put 0x26 (slow (file 0x1d) (file 0x1e)) file)
  unfolding set_low_data_rate_optimization
  set_low_data_rate_optimization-Holds {file} held =
      write_register-Holds laws 0x26 _ refl
        (rw
          (
            read_register-reg laws 0x1d refl held,
            read_register-reg laws 0x1e refl (read_register-Holds laws 0x1d refl held),
          )
          (u8_if (leb 11 (file 0x1e / 16) && file 0x1d / 16 == 7) 12 4 (omega arith) (omega arith)))
        (read_register-Holds laws 0x1e refl (read_register-Holds laws 0x1d refl held))

  -- `lora_set_spreading_factor` leaves the spreading factor, kept between 6 and 12, in the high
  -- half of REG_MODEM_CONFIG_2, sets the two detection registers for factor 6 or for the others and
  -- the low data rate bit by the new factor and the bandwidth, and keeps the rest of the
  -- configuration registers and the low half of REG_MODEM_CONFIG_2.
  pub lora_set_spreading_factor-Holds :
      (sf : ℕ) {chip : spi.Chip} {file : ℕ → ℕ}
      → Holds laws chip file
      → Holds laws (lora_set_spreading_factor spi sf chip).1 (spread sf file)
  unfolding lora_set_spreading_factor
  lora_set_spreading_factor-Holds sf {file = file} held = set_low_data_rate_optimization-Holds (
      write_register-Holds laws 0x1e _ refl
        (rw
          (read_register-reg laws 0x1e refl (
            write_register-Holds laws 0x37 _ refl
              (u8_if (clamp 6 12 sf == 6) 12 10 (omega arith) (omega arith))
              (write_register-Holds laws 0x31 _ refl
                (u8_if (clamp 6 12 sf == 6) 197 195 (omega arith) (omega arith)) held)))
          (omega
            (arith, low_nibble (file 0x1e) (clamp 6 12 sf), clamp_bounds 6 12 sf (omega arith))))
        (read_register-Holds laws 0x1e refl (
          write_register-Holds laws 0x37 _ refl (u8_if _ 12 10 (omega arith) (omega arith)) (
            write_register-Holds laws 0x31 _ refl (u8_if _ 197 195 (omega arith) (omega arith))
              held))))
