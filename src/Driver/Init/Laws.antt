-- ===== src/Driver/Init/Laws.antt =====
-- `lora_init`: what it leaves in the registers, and a chip of another version.
use hydro_lo_ra_shield.Base.{
  ◌⊎◌, inl, inr, ℕ, ◌+◌, ◌*◌, ◌/◌, ◌%◌, ◌^◌, ◌<◌, ◌≡◌, ◌≢◌, refl, ◌∙◌, arith, bit_and, bit_or,
  bit_and_double, bit_and_127, bit_or_digit, bit_or-zero, [], ◌∷◌, true, ne→==,
}
use native.Mathlib.Decide.{ℕ_discrete}
use hydro_lo_ra_shield.Spi.{Spi, RegisterLaws, is_config}
use hydro_lo_ra_shield.Link.{lora_ok}
use hydro_lo_ra_shield.Driver.{
  Sx1276, write_register, read_register, set_mode, lora_mode_sleep, lora_mode_standby,
  lora_compatible_version, lora_error, lora_default_tx_power, lora_default_sf,
  lora_default_preamble_len,
}
use hydro_lo_ra_shield.Driver.Files.{
  put, Holds, Holds-lt, read_register-reg, read_register-Holds, write_register-Holds,
  write_command-Holds,
}
use hydro_lo_ra_shield.Driver.Config.{clamp, lora_set_explicit_header_mode}
use hydro_lo_ra_shield.Driver.Config.Laws.{lora_set_spreading_factor-Holds}
use hydro_lo_ra_shield.Driver.Config.Modem.{
  lora_set_frequency-Holds, lora_set_preamble_length-Holds,
}
use hydro_lo_ra_shield.Driver.Config.Power.{dbm, lora_set_tx_power-Holds}
use hydro_lo_ra_shield.Driver.Init.{defaults, lora_version, configure, init_if, lora_init}

-- Reading the version changes no configuration register.
abbrev pub KeepsRegisters : {spi : Spi} → RegisterLaws spi → Type 0
KeepsRegisters {spi} laws =
    (b : ℕ) (chip : spi.Chip)
    → is_config b ≡ true
    → laws.reg (spi.xfer (0x42 ∷ 0 ∷ []) chip).1 b ≡ laws.reg chip b

-- The registers after `lora_init`; `before` are those before it.
pub record IsInitialised (freq : ℕ) (before file : ℕ → ℕ) : Type 0 where
  pub frequency : file 0x06 * 65536 + file 0x07 * 256 + file 0x08 ≡ freq * 2 ^ 19 / 32_000_000
  pub spreading : file 0x1e / 16 ≡ 7
  pub preamble : file 0x20 * 256 + file 0x21 ≡ 10
  -- The header mode is the lowest bit.
  pub explicit : file 0x1d ≡ before 0x1d / 2 * 2
  pub boosted : file 0x0c ≡ before 0x0c / 4 * 4 + 3
  pub automatic_gain : file 0x26 ≡ 4
  pub power : dbm (file 0x09) (file 0x4d) ≡ 17

clear_bit_0 : (v : ℕ) → v < 256 → bit_and v 0xfe ≡ v / 2 * 2
clear_bit_0 v h = omega (arith, bit_and_double v 127, bit_and_127 (v / 2))

seven : (v : ℕ) → (112 + v % 16) / 16 ≡ 7
seven v = omega arith

short : lora_default_preamble_len < 2 ^ 16
short = omega arith

set_low_bits : (v : ℕ) → bit_or v 3 ≡ v / 4 * 4 + 3
set_low_bits v = omega (arith, bit_or_digit v 3, bit_or_digit (v / 2) 1, bit_or-zero (v / 2 / 2))

module _ {spi : Spi} (laws : RegisterLaws spi) where
  lora_version-Holds :
      {chip : spi.Chip} {file : ℕ → ℕ}
      → KeepsRegisters laws
      → Holds laws chip file
      → Holds laws (lora_version spi chip).1 file
  unfolding lora_version read_register
  lora_version-Holds {chip} keeps held b c = keeps b chip c ∙ held b c

  explicit-Holds :
      {chip : spi.Chip} {file : ℕ → ℕ}
      → Holds laws chip file
      → Holds laws (lora_set_explicit_header_mode spi chip).1 (put 0x1d (file 0x1d / 2 * 2) file)
  unfolding lora_set_explicit_header_mode
  explicit-Holds {file = file} held =
      write_register-Holds laws 0x1d _ refl
        (rw (read_register-reg laws 0x1d refl held) (
          omega (
            arith,
            clear_bit_0 (file 0x1d) (Holds-lt laws 0x1d refl held),
            Holds-lt laws 0x1d refl held,
          )))
        (read_register-Holds laws 0x1d refl held)

  boost-Holds :
      {chip : spi.Chip} {file : ℕ → ℕ}
      → Holds laws chip file
      → Holds laws
          (write_register spi 0x0c
            (bit_or (read_register spi 0x0c chip).0 0x03)
            (read_register spi 0x0c chip).1).1
          (put 0x0c (file 0x0c / 4 * 4 + 3) file)
  boost-Holds {file = file} held =
      write_register-Holds laws 0x0c _ refl
        (rw (read_register-reg laws 0x0c refl held)
          (omega (arith, set_low_bits (file 0x0c), Holds-lt laws 0x0c refl held)))
        (read_register-Holds laws 0x0c refl held)

  configure-Holds :
      (lora : Sx1276) (freq : ℕ) {chip : spi.Chip} {file : ℕ → ℕ}
      → Holds laws chip file
      → lora.pa_mode ≢ 0
      → freq < 1_024_000_000
      → (file' : ℕ → ℕ) × Holds laws (configure spi lora freq chip).1 file'
        × IsInitialised freq file file'
  unfolding configure lora_mode_sleep lora_mode_standby set_mode clamp
  configure-Holds lora freq {file = file} held boost small =
      let slept =
        write_command-Holds laws 0x01 _ refl (write_command-Holds laws 0x01 _ refl held) in
      let (msb, mid, lsb, tuned, b0, b1, b2, sum) =
        lora_set_frequency-Holds laws freq slept small in
      let spread = lora_set_spreading_factor-Holds laws lora_default_sf tuned in
      let led = lora_set_preamble_length-Holds laws lora_default_preamble_len spread short in
      let gain = write_register-Holds laws 0x26 0x04 refl refl (boost-Holds (explicit-Holds led)) in
      let (pa_config, pa_dac, powered, power, boosted) =
        lora_set_tx_power-Holds laws lora lora_default_tx_power gain boost in
      (
        _,
        write_command-Holds laws 0x01 _ refl powered,
        record {
          frequency = sum;
          spreading = seven (file 0x1e);
          preamble = refl;
          explicit = refl;
          boosted = refl;
          automatic_gain = refl;
          power = power;
        },
      )

  -- `lora_init` for a frequency below 1024 MHz. On a chip of version 0x12 it returns `LORA_OK` and
  -- the default struct, and the registers have the frequency, spreading factor 7, a preamble of
  -- 10, the explicit header with the other bits of its register kept, the boost of the LNA, the
  -- automatic gain and 17 dBm. On any other it returns `LORA_ERROR`, and no configuration register
  -- changes.
  pub lora_init-Holds :
      (freq : ℕ) {chip : spi.Chip} {file : ℕ → ℕ}
      → KeepsRegisters laws
      → Holds laws chip file
      → freq < 1_024_000_000
      → (((lora_version spi chip).0 ≡ lora_compatible_version)
          × ((lora_init spi freq chip).0 ≡ (lora_ok, defaults freq))
          × (file' : ℕ → ℕ) × Holds laws (lora_init spi freq chip).1 file'
          × IsInitialised freq file file')
        ⊎ (((lora_version spi chip).0 ≢ lora_compatible_version)
            × ((lora_init spi freq chip).0.0 ≡ lora_error)
            × Holds laws (lora_init spi freq chip).1 file)
  unfolding lora_init init_if defaults
  lora_init-Holds freq {chip} {file} keeps held small =
      elim (ℕ_discrete (lora_version spi chip).0 lora_compatible_version) [
        | yes right ↦
            let (file', configured, done) =
              configure-Holds (defaults freq) freq (lora_version-Holds keeps held) pa_mode small in
            inl (right, rw (right, lora_init) refl, file', rw (right, lora_init) configured, done)
        | no wrong ↦ inr (
          wrong,
          rw (ne→== _ _ wrong, lora_init) refl,
          rw (ne→== _ _ wrong, lora_init) (lora_version-Holds keeps held),
        )
      ]
    where
      pa_mode : (defaults freq).pa_mode ≢ 0
      pa_mode e = absurd (omega (arith, e))
