-- ===== src/Lora/Presets.antt =====
-- lib/lora.cpp: what `set_long_range` and `set_short_range` leave in the registers.
use hydro_lo_ra_shield.Base.{
  ℕ, ◌+◌, ◌*◌, ◌/◌, ◌%◌, ◌≤◌, ◌<◌, ◌≡◌, ◌≢◌, refl, ap, ◌∙◌, arith, bit_or, u8, ◌==◌, if◌then◌else◌,
}
use hydro_lo_ra_shield.Spi.{Spi, RegisterLaws}
use hydro_lo_ra_shield.Driver.{
  Sx1276, lora_pa_output_rfo, lora_mode_sleep, set_mode, lora_mode_receive,
  lora_mode_receive_continuous, lora_enable_interrupt_rx_done,
}
use hydro_lo_ra_shield.Driver.Files.{put, Holds, write_register-Holds, write_command-Holds}
use hydro_lo_ra_shield.Driver.Config.{
  clamp, lora_set_spreading_factor, lora_set_signal_bandwidth, lora_set_coding_rate,
  lora_set_tx_power, lora_set_preamble_length, lora_set_crc,
}
use hydro_lo_ra_shield.Driver.Config.Laws.{lora_set_spreading_factor-Holds}
use hydro_lo_ra_shield.Driver.Config.Modem.{
  lora_set_signal_bandwidth-Holds, lora_set_coding_rate-Holds, lora_set_preamble_length-Holds,
}
use hydro_lo_ra_shield.Driver.Config.Power.{dbm, lora_set_crc-Holds, lora_set_tx_power-Holds}
use hydro_lo_ra_shield.Lora.{
  receiving, Device, set_receive_mode, long_range, short_range, set_long_range, set_short_range,
}

-- A preset as the registers have it: the spreading factor, the bandwidth code, the power in dBm,
-- the preamble and the payload checksum; `before` is the old content of REG_MODEM_CONFIG_1, whose
-- low bits, with the coding rate, are still there.
pub record IsPreset (sf bw level len crc before : ℕ) (file : ℕ → ℕ) : Type 0 where
  pub spreading : file 0x1e / 16 ≡ sf
  pub bandwidth : file 0x1d / 16 ≡ bw
  pub rate_kept : file 0x1d % 16 ≡ before % 16
  pub power : dbm (file 0x09) (file 0x4d) ≡ level
  pub preamble : file 0x20 * 256 + file 0x21 ≡ len
  pub checksum : file 0x1e / 4 % 2 ≡ crc

-- The receive mode leaves a preset as it is.
IsPreset-put :
    {sf bw level len crc before : ℕ} {file : ℕ → ℕ} (base : ℕ)
    → IsPreset sf bw level len crc before file
    → IsPreset sf bw level len crc before (put 0x40 0 (put 0x0f base file))
IsPreset-put base p = record {
  spreading = p.spreading;
  bandwidth = p.bandwidth;
  rate_kept = p.rate_kept;
  power = p.power;
  preamble = p.preamble;
  checksum = p.checksum;
}

-- The arithmetic of the registers.
checked_factor :
    (crc sf v kept : ℕ)
    → kept ≡ sf
    → ((kept * 16 + v % 16) / 8 * 8 + (if crc == 0 then 0 else 4) + (kept * 16 + v % 16) % 4) / 16
      ≡ sf
checked_factor crc sf v kept e = ground arith

checked_bit :
    (crc v : ℕ) → crc < 2 → (v / 8 * 8 + (if crc == 0 then 0 else 4) + v % 4) / 4 % 2 ≡ crc
checked_bit crc v h = ground arith

band_kept : (bw v k : ℕ) → bw < 16 → bit_or bw k ≡ bw → bit_or ((bw * 16 + v % 16) / 16) k % 16 ≡ bw
band_kept bw v k h e = ap (λ n. bit_or n k % 16) band ∙ ap (λ n. n % 16) e ∙ omega arith
  where
    band : (bw * 16 + v % 16) / 16 ≡ bw
    band = omega arith

low_kept : (bw v : ℕ) → (bw * 16 + v % 16) % 16 ≡ v % 16
low_kept bw v = omega arith

preamble_kept : (len : ℕ) → len < 16 → len / 256 * 256 + len % 16 ≡ len
preamble_kept len h = omega arith

module _ {spi : Spi} (laws : RegisterLaws spi) where
  set_receive_mode-Holds :
      (d : Device spi) {file : ℕ → ℕ}
      → Holds laws d.chip file
      → Holds laws
          (set_receive_mode spi d).chip
          (put 0x40 0 (put 0x0f (u8 d.lora.rx_base_addr) file))
  unfolding set_receive_mode lora_mode_receive_continuous lora_mode_receive set_mode
      lora_enable_interrupt_rx_done
  set_receive_mode-Holds d held = write_register-Holds laws 0x40 _ refl refl (
      write_command-Holds laws 0x01 _ refl
        (write_command-Holds laws 0x12 _ refl (write_register-Holds laws 0x0f _ refl refl held)))

  module _ (sf bw rate level len crc : ℕ) (lora : Sx1276) (chip : spi.Chip) where
    -- The settings of a preset, one after the other.
    abbrev settings : spi.Chip
    settings =
        let slept = (lora_mode_sleep spi chip).1 in
        let spread = (lora_set_spreading_factor spi sf slept).1 in
        let widened = (lora_set_signal_bandwidth spi bw spread).1 in
        let coded = (lora_set_coding_rate spi rate widened).1 in
        let powered = (lora_set_tx_power spi lora level coded).1 in
        let led = (lora_set_preamble_length spi len powered).1 in (lora_set_crc spi crc led).1

    settings-Holds :
        {file : ℕ → ℕ}
        → Holds laws chip file
        → lora.pa_mode ≢ lora_pa_output_rfo
        → clamp 6 12 sf ≡ sf
        → sf ≤ 12
        → bw < 16
        → rate % 8 ≡ 0
        → rate ≤ 32
        → bit_or bw (rate / 8) ≡ bw
        → clamp 2 20 level ≡ level
        → len < 16
        → crc < 2
        → (file' : ℕ → ℕ) × Holds laws settings file'
          × IsPreset sf bw level len crc (file 0x1d) file'
    unfolding lora_mode_sleep set_mode
    settings-Holds {file} held boost sf_kept sf_small bw_small eighth rate_small hidden level_kept
          short bit =
        let slept = write_command-Holds laws 0x01 _ refl held in
        let spread = lora_set_spreading_factor-Holds laws sf slept in
        let widened = lora_set_signal_bandwidth-Holds laws bw bw_small spread in
        let (mc1, coded, low, high) =
          lora_set_coding_rate-Holds laws rate widened eighth rate_small in
        let (pa_config, pa_dac, powered, power, boosted) =
          lora_set_tx_power-Holds laws lora level coded boost in
        let led = lora_set_preamble_length-Holds laws len powered (omega arith) in
        (
          _,
          lora_set_crc-Holds laws crc led (omega (arith, sf_kept)),
          record {
            spreading = checked_factor crc sf (file 0x1e) (clamp 6 12 sf) sf_kept;
            bandwidth = high ∙ band_kept bw (file 0x1d) (rate / 8) bw_small hidden;
            rate_kept = low ∙ low_kept bw (file 0x1d);
            power = power ∙ level_kept;
            preamble = preamble_kept len short;
            checksum = checked_bit crc (clamp 6 12 sf * 16 + file 0x1e % 16) bit;
          },
        )

  -- The two presets, on a chip that drives the boost pin: `set_long_range` sets spreading factor
  -- 8, 62.5 kHz, 20 dBm, a preamble of 10 and the checksum, `set_short_range` spreading factor 7,
  -- 125 kHz, 10 dBm, a preamble of 5 and no checksum, and both end in the receive mode; but the
  -- coding rate stays what it was.
  pub presets-IsPreset :
      (d : Device spi) {file : ℕ → ℕ}
      → Holds laws d.chip file
      → d.lora.pa_mode ≢ lora_pa_output_rfo
      → ((far : ℕ → ℕ) × Holds laws (set_long_range spi d).1.chip far
          × IsPreset 8 6 20 10 1 (file 0x1d) far
          × ((set_long_range spi d).1.mode ≡ receiving))
        × ((near : ℕ → ℕ) × Holds laws (set_short_range spi d).1.chip near
            × IsPreset 7 7 10 5 0 (file 0x1d) near
            × ((set_short_range spi d).1.mode ≡ receiving))
  unfolding set_long_range long_range set_short_range short_range set_receive_mode clamp
  presets-IsPreset d held boost =
      let (far, far_set, long) =
        settings-Holds 8 6 0x20 20 10 1 d.lora d.chip held boost refl (omega arith) (omega arith)
          refl (omega arith) refl refl (omega arith) (omega arith) in
      let (near, near_set, short) =
        settings-Holds 7 7 0x08 10 5 0 d.lora d.chip held boost refl (omega arith) (omega arith)
          refl (omega arith) refl refl (omega arith) (omega arith) in
      (
        (
          _,
          set_receive_mode-Holds (record d { chip = (long_range spi d.lora d.chip).1 }) far_set,
          IsPreset-put _ long,
          refl,
        ),
        (
          _,
          set_receive_mode-Holds (record d { chip = (short_range spi d.lora d.chip).1 }) near_set,
          IsPreset-put _ short,
          refl,
        ),
      )
