-- ===== src/Driver/Files.antt =====
-- Runs of the driver's operations over a file of the configuration registers: what is read comes
-- from the file, and what is written goes into it, for any chip that meets the laws.
use hydro_lo_ra_shield.Base.{
  ℕ, ◌+◌, ◌<◌, ◌≡◌, ap, ◌∙◌, true, ◌==◌, [], ◌∷◌, get_or, if◌then◌else◌, arith, bit_and, bit_or, u8,
  bit_or_fields, bit_or_comm, bit_and_127,
}
use hydro_lo_ra_shield.Spi.{Spi, RegisterLaws, is_config, is_command}
use hydro_lo_ra_shield.Driver.{read_register, write_register}

-- A register file after a write.
abbrev pub put : ℕ → ℕ → (ℕ → ℕ) → ℕ → ℕ
put a v file b = if b == a then v else file b

config-lt : (a : ℕ) → is_config a ≡ true → a < 128
config-lt a h = ground arith

command-lt : (a : ℕ) → is_command a ≡ true → a < 128
command-lt a h = ground arith

read_address : (a : ℕ) → is_config a ≡ true → bit_and a 0x7f ≡ a
read_address a h = omega (arith, bit_and_127 a, config-lt a h)

write_address : (a : ℕ) → is_config a ≡ true → bit_or a 0x80 ≡ a + 128
write_address a h =
    omega (arith, bit_or_comm a 0x80, bit_or_fields 7 1 a (omega (arith, config-lt a h)))

command_address : (a : ℕ) → is_command a ≡ true → bit_or a 0x80 ≡ a + 128
command_address a h =
    omega (arith, bit_or_comm a 0x80, bit_or_fields 7 1 a (omega (arith, command-lt a h)))

module _ {spi : Spi} (laws : RegisterLaws spi) where
  -- The chip's configuration registers are those of the file.
  abbrev pub Holds : spi.Chip → (ℕ → ℕ) → Type 0
  Holds chip file = (b : ℕ) → is_config b ≡ true → laws.reg chip b ≡ file b

  -- A file that a chip holds has bytes in it.
  pub Holds-lt :
      (a : ℕ) {chip : spi.Chip} {file : ℕ → ℕ} → is_config a ≡ true → Holds chip file → file a < 256
  Holds-lt a {chip} c held = omega (arith, held a c, laws.reg-lt chip a)

  pub read_register-reg :
      (a : ℕ) {chip : spi.Chip} {file : ℕ → ℕ}
      → is_config a ≡ true
      → Holds chip file
      → (read_register spi a chip).0 ≡ file a
  unfolding read_register
  read_register-reg a {chip} h held =
      ap (λ n. get_or (spi.xfer (n ∷ 0 ∷ []) chip).0 1 0) (read_address a h)
      ∙ laws.reads a chip h
      ∙ held a h

  pub read_register-Holds :
      (a : ℕ) {chip : spi.Chip} {file : ℕ → ℕ}
      → is_config a ≡ true
      → Holds chip file
      → Holds (read_register spi a chip).1 file
  unfolding read_register
  read_register-Holds a {chip} h held b c =
      ap (λ n. laws.reg (spi.xfer (n ∷ 0 ∷ []) chip).1 b) (read_address a h)
      ∙ laws.reg-read a b chip h c
      ∙ held b c

  pub write_register-Holds :
      (a v : ℕ) {w : ℕ} {chip : spi.Chip} {file : ℕ → ℕ}
      → is_config a ≡ true
      → u8 v ≡ w
      → Holds chip file
      → Holds (write_register spi a v chip).1 (put a w file)
  unfolding write_register
  write_register-Holds a v {w} {chip} h e held b c =
      ap (λ n. laws.reg (spi.xfer (n ∷ u8 v ∷ []) chip).1 b) (write_address a h)
      ∙ laws.reg-write a (u8 v) b chip h c (omega arith)
      ∙ ap (λ n. if b == a then n else laws.reg chip b) e
      ∙ ap (λ n. if b == a then w else n) (held b c)

  pub write_command-Holds :
      (a v : ℕ) {chip : spi.Chip} {file : ℕ → ℕ}
      → is_command a ≡ true
      → Holds chip file
      → Holds (write_register spi a v chip).1 file
  unfolding write_register
  write_command-Holds a v {chip} h held b c =
      ap (λ n. laws.reg (spi.xfer (n ∷ u8 v ∷ []) chip).1 b) (command_address a h)
      ∙ laws.reg-command a (u8 v) b chip h c (omega arith)
      ∙ held b c
