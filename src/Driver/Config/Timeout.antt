-- ===== src/Driver/Config/Timeout.antt =====
-- The timeout of the single receive, in symbols: ten bits in two registers.
use hydro_lo_ra_shield.Base.{
  inl, inr, ◌↔◌, ℕ, ◌+◌, ◌*◌, ◌/◌, ◌%◌, ◌≤◌, ◌<◌, ◌≡◌, refl, ap, ap₂, sym, ◌∙◌, arith, bit_or,
  false, ltb, u8, ==→eq, bit_and_15, bit_or_digit, bit_or-zero, Bool-cases, ◌==◌, ge→ltb, ltb→ge,
  bit_and,
}
use Prim.Native.Nat.{max}
use hydro_lo_ra_shield.Spi.{Spi, RegisterLaws}
use hydro_lo_ra_shield.Driver.Files.{
  put, Holds, Holds-lt, read_register-reg, read_register-Holds, write_register-Holds,
}
use hydro_lo_ra_shield.Driver.{write_register}
use hydro_lo_ra_shield.Driver.Config.{lora_set_rx_symbol_timeout}

-- An `or` with a number below 4 keeps the bits above.
or_low : (v k : ℕ) → k < 4 → (bit_or v k / 4 ≡ v / 4) × (bit_or v k % 4 ≡ bit_or (v % 4) k)
or_low v k h = (
  omega (arith, two_digits v, above),
  omega (arith, two_digits v, above, two_digits (v % 4), none_above),
)
  where
    two_digits :
        (w : ℕ)
        → bit_or w k
          ≡ (bit_or (w / 2 / 2) (k / 2 / 2) * 2 + max (w / 2 % 2) (k / 2 % 2)) * 2
            + max (w % 2) (k % 2)
    two_digits w = bit_or_digit w k ∙ ap (λ t. t * 2 + max (w % 2) (k % 2)) (bit_or_digit _ _)

    quarter : v / 2 / 2 ≡ v / 4
    quarter = omega arith

    rest : v % 4 / 2 / 2 ≡ 0
    rest = omega arith

    no_more : k / 2 / 2 ≡ 0
    no_more = omega arith

    above : bit_or (v / 2 / 2) (k / 2 / 2) ≡ v / 4
    above = omega (arith, ap₂ bit_or quarter no_more, bit_or-zero (v / 4))

    none_above : bit_or (v % 4 / 2 / 2) (k / 2 / 2) ≡ 0
    none_above = omega (arith, ap₂ bit_or rest no_more, bit_or-zero 0)

module _ {spi : Spi} (laws : RegisterLaws spi) where
  -- A file with a register as it was.
  put_same :
      (a : ℕ) {v : ℕ} {chip : spi.Chip} {file : ℕ → ℕ}
      → v ≡ file a
      → Holds laws chip file
      → Holds laws chip (put a v file)
  put_same a {v} {file = file} same held b c = elim (Bool-cases (b == a)) [
    | inl here ↦ rw here (held b c ∙ ap file (==→eq b a here) ∙ sym same)
    | inr there ↦ rw there (held b c)
  ]

  timed :
      (symbols : ℕ) {chip : spi.Chip} {file : ℕ → ℕ}
      → Holds laws chip file
      → 4 ≤ symbols
      → symbols < 1024
      → Holds laws
          (lora_set_rx_symbol_timeout spi symbols chip).1
          (put 0x1e (bit_or (file 0x1e) (symbols / 256)) (put 0x1f (symbols % 16) file))
  unfolding lora_set_rx_symbol_timeout
  timed symbols {chip} {file} held least most =
      rw (not_below, not_above)
        (elim (Bool-cases (ltb 255 symbols)) [
          | inl long ↦ rw long (
              write_register-Holds laws 0x1e _ refl
                (rw (read_register-reg laws 0x1e refl low) (rw (not_below, not_above) byte))
                (read_register-Holds laws 0x1e refl low))
          | inr short ↦ rw short (put_same 0x1e (same short) low)
        ])
    where
      not_below : ltb symbols 4 ≡ false
      not_below = ge→ltb symbols 4 least

      not_above : ltb 1023 symbols ≡ false
      not_above = ge→ltb 1023 symbols (omega arith)

      low :
          Holds laws
            (write_register spi 0x1f (bit_and symbols 0x0f) chip).1
            (put 0x1f (symbols % 16) file)
      low =
          write_register-Holds laws 0x1f (bit_and symbols 0x0f) refl
            (omega (arith, bit_and_15 symbols)) held

      byte : u8 (bit_or (file 0x1e) (symbols / 256)) ≡ bit_or (file 0x1e) (symbols / 256)
      byte = omega (
        arith,
        (or_low (file 0x1e) (symbols / 256) (omega arith)).0,
        Holds-lt laws 0x1e refl held,
      )

      same : ltb 255 symbols ≡ false → bit_or (file 0x1e) (symbols / 256) ≡ file 0x1e
      same short =
          let none : symbols / 256 ≡ 0 = omega (arith, ltb→ge 255 symbols short) in
          ap (bit_or (file 0x1e)) none ∙ bit_or-zero (file 0x1e)

  -- `lora_set_rx_symbol_timeout` for 4 to 1023 symbols changes no configuration register but the
  -- two of the timeout, and keeps the bits of REG_MODEM_CONFIG_2 above the lowest two. The ten bits
  -- of the timeout are then the symbols asked for exactly when bits 4 to 7 of the symbols are 0,
  -- and the two bits that the register had before are in those of the symbols: the low register
  -- gets four bits of them, and the high bits are only added.
  pub lora_set_rx_symbol_timeout-Holds :
      (symbols : ℕ) {chip : spi.Chip} {file : ℕ → ℕ}
      → Holds laws chip file
      → 4 ≤ symbols
      → symbols < 1024
      → (mc2 : ℕ) × Holds laws
          (lora_set_rx_symbol_timeout spi symbols chip).1
          (put 0x1e mc2 (put 0x1f (symbols % 16) file))
        × (mc2 / 4 ≡ file 0x1e / 4)
        × ((mc2 % 4 * 256 + symbols % 16 ≡ symbols)
            ↔ ((symbols / 16 % 16 ≡ 0) × (bit_or (file 0x1e % 4) (symbols / 256) ≡ symbols / 256)))
  lora_set_rx_symbol_timeout-Holds symbols {file = file} held least most =
      let (above, low) = or_low (file 0x1e) (symbols / 256) (omega arith) in
      (
        bit_or (file 0x1e) (symbols / 256),
        timed symbols held least most,
        above,
        (
          (λ e. (omega (arith, e, low), omega (arith, e, low))),
          (λ h. omega (arith, h.0, h.1, low)),
        ),
      )
