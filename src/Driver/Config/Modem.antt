-- ===== src/Driver/Config/Modem.antt =====
-- The other settings: bandwidth, coding rate, checksum, preamble, power and frequency.
use hydro_lo_ra_shield.Base.{
  ℕ, ◌+◌, ◌*◌, ◌/◌, ◌%◌, ◌^◌, ◌≤◌, ◌<◌, ◌≡◌, refl, ap, ap₂, arith, bit_or, u8, bit_and_15,
  bit_and_255, bit_and_byte, bit_or_digit,
}
use hydro_lo_ra_shield.Spi.{Spi, RegisterLaws}
use hydro_lo_ra_shield.Driver.Files.{
  put, Holds, read_register-reg, read_register-Holds, write_register-Holds,
}
use hydro_lo_ra_shield.Driver.Config.{
  lora_set_signal_bandwidth, lora_set_coding_rate, lora_set_preamble_length, lora_set_frequency,
}
use hydro_lo_ra_shield.Driver.Config.Laws.{slow, low_nibble, set_low_data_rate_optimization-Holds}

-- The file after `lora_set_signal_bandwidth`.
abbrev pub widened : ℕ → (ℕ → ℕ) → ℕ → ℕ
widened bw file =
    let mc1 = bw * 16 + file 0x1d % 16 in put 0x26 (slow mc1 (file 0x1e)) (put 0x1d mc1 file)

-- The four low bits of an `or` with a number that has none.
or_high : (a k : ℕ) → bit_or a (k * 16) % 16 ≡ a % 16
or_high a k = omega (
  arith,
  bit_or_digit a (k * 16),
  bit_or_digit (a / 2) (k * 16 / 2),
  bit_or_digit (a / 2 / 2) (k * 16 / 2 / 2),
  bit_or_digit (a / 2 / 2 / 2) (k * 16 / 2 / 2 / 2),
)

or_high_part : (a k : ℕ) → bit_or a (k * 16) / 16 ≡ bit_or (a / 16) k
or_high_part a k = omega (
  arith,
  bit_or_digit a (k * 16),
  bit_or_digit (a / 2) (k * 16 / 2),
  bit_or_digit (a / 2 / 2) (k * 16 / 2 / 2),
  bit_or_digit (a / 2 / 2 / 2) (k * 16 / 2 / 2 / 2),
  ap₂ bit_or a_part k_part,
)
  where
    a_part : a / 2 / 2 / 2 / 2 ≡ a / 16
    a_part = omega arith

    k_part : k * 16 / 2 / 2 / 2 / 2 ≡ k
    k_part = omega arith

module _ {spi : Spi} (laws : RegisterLaws spi) where
  pub lora_set_signal_bandwidth-Holds :
      (bw : ℕ) {chip : spi.Chip} {file : ℕ → ℕ}
      → bw < 16
      → Holds laws chip file
      → Holds laws (lora_set_signal_bandwidth spi bw chip).1 (widened bw file)
  unfolding lora_set_signal_bandwidth
  lora_set_signal_bandwidth-Holds bw {file = file} small held =
      set_low_data_rate_optimization-Holds laws (
        write_register-Holds laws 0x1d _ refl
          (rw (read_register-reg laws 0x1d refl held) (omega (arith, low_nibble (file 0x1d) bw)))
          (read_register-Holds laws 0x1d refl held))

  -- The rates of the header, 8, 16, 24 and 32, are moved past the three bits of the register that
  -- hold the coding rate: with any of them `lora_set_coding_rate` changes no other configuration
  -- register than REG_MODEM_CONFIG_1, and there leaves these bits and
  -- the header bit as they were: the rate, divided by 8, goes into the bits of the bandwidth.
  pub lora_set_coding_rate-Holds :
      (rate : ℕ) {chip : spi.Chip} {file : ℕ → ℕ}
      → Holds laws chip file
      → rate % 8 ≡ 0
      → rate ≤ 32
      → (mc1 : ℕ) × Holds laws (lora_set_coding_rate spi rate chip).1 (put 0x1d mc1 file)
        × (mc1 % 16 ≡ file 0x1d % 16)
        × (mc1 / 16 ≡ bit_or (file 0x1d / 16) (rate / 8) % 16)
  unfolding lora_set_coding_rate
  lora_set_coding_rate-Holds rate {file = file} held eighth small = (
    u8 (bit_or (file 0x1d) (rate * 2)),
    write_register-Holds laws 0x1d _ refl (rw (read_register-reg laws 0x1d refl held) refl)
        (read_register-Holds laws 0x1d refl held),
    omega (arith, or_high (file 0x1d) (rate / 8), ap (λ k. bit_or (file 0x1d) k) doubled),
    omega (arith, or_high_part (file 0x1d) (rate / 8), ap (λ k. bit_or (file 0x1d) k) doubled),
  )
    where
      doubled : rate / 8 * 16 ≡ rate * 2
      doubled = omega arith

  -- The three frequency registers hold, as one 24-bit number, the frequency in steps of
  -- 32 MHz / 2 ^ 19, rounded down, for each frequency below 1024 MHz; the other configuration
  -- registers keep what they held.
  pub lora_set_frequency-Holds :
      (freq : ℕ) {chip : spi.Chip} {file : ℕ → ℕ}
      → Holds laws chip file
      → freq < 1_024_000_000
      → (msb : ℕ) × (mid : ℕ) × (lsb : ℕ) × Holds laws
          (lora_set_frequency spi freq chip).1
          (put 0x08 lsb (put 0x07 mid (put 0x06 msb file)))
        × (msb < 256)
        × (mid < 256)
        × (lsb < 256)
        × (msb * 65536 + mid * 256 + lsb ≡ freq * 2 ^ 19 / 32_000_000)
  unfolding lora_set_frequency
  lora_set_frequency-Holds freq held small = (
    freq * 2 ^ 19 / 32_000_000 / 65536,
    freq * 2 ^ 19 / 32_000_000 / 256 % 256,
    freq * 2 ^ 19 / 32_000_000 % 256,
    write_register-Holds laws 0x08 _ refl
        (omega (arith, bit_and_255 (freq * 2 ^ 19 % 2 ^ 64 / 32_000_000)))
        (write_register-Holds laws 0x07 _ refl
          (omega (
            arith,
            bit_and_byte (freq * 2 ^ 19 % 2 ^ 64 / 32_000_000) 255,
            bit_and_255 (freq * 2 ^ 19 % 2 ^ 64 / 32_000_000 / 256),
          ))
          (write_register-Holds laws 0x06 _ refl (omega arith) held)),
    omega arith,
    omega arith,
    omega arith,
    omega arith,
  )

  pub lora_set_preamble_length-Holds :
      (len : ℕ) {chip : spi.Chip} {file : ℕ → ℕ}
      → Holds laws chip file
      → len < 2 ^ 16
      → Holds laws
          (lora_set_preamble_length spi len chip).1
          (put 0x21 (len % 16) (put 0x20 (len / 256) file))
  unfolding lora_set_preamble_length
  lora_set_preamble_length-Holds len held small =
      write_register-Holds laws 0x21 _ refl (omega (arith, bit_and_15 len))
        (write_register-Holds laws 0x20 _ refl (omega arith) held)
