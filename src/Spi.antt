-- ===== src/Spi.antt =====
-- What lib/lora_sx1276.cpp uses of the SPI library and of the clock. The SPI library is not part of
-- the repository, so it is a parameter, with the documented behaviour of the chip's configuration
-- registers as laws.
use hydro_lo_ra_shield.Base.{
  ℕ, ◌+◌, ◌<◌, ◌≡◌, Bool, true, ◌||◌, List, [], ◌∷◌, ◌==◌, if◌then◌else◌, get_or,
}

pub record Spi : Type 1 where
  -- The state of the chip and of its surroundings.
  pub Chip : Type 0
  -- `spi->xfer`: the bytes sent, and the bytes read at the same time.
  pub xfer : List ℕ → Chip → List ℕ × Chip
  -- `sleep_for` some milliseconds.
  pub sleep : ℕ → Chip → Chip

-- The registers that hold what was written last, as the datasheet describes them, among those
-- that the driver uses.
abbrev pub is_config : ℕ → Bool
is_config a =
    a == 0x06
    || a == 0x07
    || a == 0x08
    || a == 0x09
    || a == 0x0b
    || a == 0x0c
    || a == 0x0e
    || a == 0x0f
    || a == 0x1d
    || a == 0x1e
    || a == 0x1f
    || a == 0x20
    || a == 0x21
    || a == 0x22
    || a == 0x26
    || a == 0x31
    || a == 0x37
    || a == 0x40
    || a == 0x4d

-- The mode and the flags, whose writes are commands.
abbrev pub is_command : ℕ → Bool
is_command a = a == 0x01 || a == 0x12

pub record RegisterLaws (spi : Spi) : Type 0 where
  -- The content of a configuration register.
  pub reg : spi.Chip → ℕ → ℕ
  pub reg-lt : (chip : spi.Chip) (a : ℕ) → reg chip a < 256
  -- A read is two bytes, the second one the register's, and changes no configuration register.
  pub reads :
      (a : ℕ) (chip : spi.Chip)
      → is_config a ≡ true
      → get_or (spi.xfer (a ∷ 0 ∷ []) chip).0 1 0 ≡ reg chip a
  pub reg-read :
      (a b : ℕ) (chip : spi.Chip)
      → is_config a ≡ true
      → is_config b ≡ true
      → reg (spi.xfer (a ∷ 0 ∷ []) chip).1 b ≡ reg chip b
  -- A write, with the top bit of the address set, changes the register that it names.
  pub reg-write :
      (a v b : ℕ) (chip : spi.Chip)
      → is_config a ≡ true
      → is_config b ≡ true
      → v < 256
      → reg (spi.xfer ((a + 128) ∷ v ∷ []) chip).1 b ≡ (if b == a then v else reg chip b)
  -- A command changes none of the configuration registers (the mode stays one of the LoRa modes).
  pub reg-command :
      (a v b : ℕ) (chip : spi.Chip)
      → is_command a ≡ true
      → is_config b ≡ true
      → v < 256
      → reg (spi.xfer ((a + 128) ∷ v ∷ []) chip).1 b ≡ reg chip b
