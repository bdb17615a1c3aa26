-- ===== src/Tests/Chips.antt =====
-- A chip that meets the register laws: a register file, with a FIFO of one byte.
use hydro_lo_ra_shield.Base.{
  ℕ, ◌+◌, ◌-◌, ◌<◌, ◌≡◌, ◌≢◌, refl, true, false, List, [], ◌∷◌, ◌==◌, ltb, if◌then◌else◌, arith, u8,
  length,
}
use hydro_lo_ra_shield.Spi.{Spi, RegisterLaws, is_config, is_command}
use hydro_lo_ra_shield.Driver.Files.{put, Holds}

-- Writing has the top bit set; the answer is the register's old content in every place.
abbrev pub answer : List ℕ → ℕ → List ℕ
answer [] v = []
answer (b ∷ bs) v = v ∷ answer bs v

abbrev pub chip_xfer : List ℕ → (ℕ → ℕ) → List ℕ × (ℕ → ℕ)
chip_xfer (a ∷ v ∷ []) regs =
    if ltb a 128
    then (answer (a ∷ v ∷ []) (u8 (regs a)), regs)
    else (answer (a ∷ v ∷ []) 0, put (a - 128) v regs)
chip_xfer tx regs = (answer tx 0, regs)

abbrev pub toy_spi : Spi
toy_spi = record { Chip = ℕ → ℕ; xfer = chip_xfer; sleep = λ ms c. c }

pub length-answer : (tx : List ℕ) (v : ℕ) → length (answer tx v) ≡ length tx
length-answer [] v = refl
length-answer (b ∷ bs) v = omega (arith, length-answer bs v)

toy-lt : (a : ℕ) → is_config a ≡ true → a < 128
toy-lt a h = ground arith

low : (a : ℕ) → a < 128 → ltb a 128 ≡ true
low a h = ground arith

high : (a : ℕ) → ltb (a + 128) 128 ≡ false
high a = ground arith

back : (a : ℕ) → a + 128 - 128 ≡ a
back a = omega arith

written : (a v b : ℕ) (c : ℕ → ℕ) → v < 256 → u8 (put a v c b) ≡ (if b == a then v else u8 (c b))
written a v b c h = ground arith

apart : (a b : ℕ) → is_command a ≡ true → is_config b ≡ true → a ≢ b
apart a b h k = ground arith

commanded :
    (a v b : ℕ) (c : ℕ → ℕ) → is_command a ≡ true → is_config b ≡ true → u8 (put a v c b) ≡ u8 (c b)
commanded a v b c h k = ground (arith, apart a b h k)

pub toy_register_laws : RegisterLaws toy_spi
toy_register_laws = record {
  reg = λ c a. u8 (c a);
  reg-lt = λ c a. omega arith;
  reads = λ a c h. rw (low a (toy-lt a h)) refl;
  reg-read = λ a b c h k. rw (low a (toy-lt a h)) refl;
  reg-write = λ a v b c h k l. rw (high a, back a) (written a v b c l);
  reg-command = λ a v b c h k l. rw (high a, back a) (commanded a v b c h k);
}

pub toy-Holds : (regs : ℕ → ℕ) → Holds toy_register_laws regs (λ a. u8 (regs a))
unfolding toy_register_laws
toy-Holds regs b h = refl
