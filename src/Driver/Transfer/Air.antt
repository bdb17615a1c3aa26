-- ===== src/Driver/Transfer/Air.antt =====
-- `lora_send_packet` on a chip as the datasheet describes its way to transmit: what goes on the air.
use hydro_lo_ra_shield.Base.{
  ℕ, zero, suc, ◌+◌, ◌%◌, ◌≤◌, ◌<◌, ◌≡◌, ◌≢◌, refl, sym, ap, ap₂, ◌∙◌, Bool, true, ◌||◌, List, [],
  ◌∷◌, ◌++◌, arith, length, take, take_all, get_or, u8, ◌==◌, if◌then◌else◌,
}
use hydro_lo_ra_shield.Spi.{Spi}
use hydro_lo_ra_shield.Driver.{Sx1276, write_register, set_mode, lora_clear_interrupt_tx_done}
use hydro_lo_ra_shield.Driver.Transfer.Send.{prepared, started}

-- The registers that say where the packet is: the pointer into the FIFO, where the transmitter
-- starts to read, and how many bytes it takes.
abbrev pub is_transmit : ℕ → Bool
is_transmit a = a == 0x0d || a == 0x0e || a == 0x22

-- The bytes that the transmitter takes from the FIFO of 256 bytes.
abbrev pub taken : (ℕ → ℕ) → ℕ → ℕ → List ℕ
taken fifo start zero = []
taken fifo start (suc n) = fifo (start % 256) ∷ taken fifo (start + 1) n

-- How the chip transmits.
pub record TransmitLaws (spi : Spi) : Type 0 where
  -- The frames whose transmission has begun, oldest first.
  pub air : spi.Chip → List (List ℕ)
  -- The mode register.
  pub mode : spi.Chip → ℕ
  pub reg : spi.Chip → ℕ → ℕ
  pub fifo : spi.Chip → ℕ → ℕ
  -- Reading the mode tells it, and changes nothing here.
  pub mode-read : (c : spi.Chip) → get_or (spi.xfer (0x01 ∷ 0 ∷ []) c).0 1 0 ≡ mode c
  pub air-read_mode : (c : spi.Chip) → air (spi.xfer (0x01 ∷ 0 ∷ []) c).1 ≡ air c
  -- Reading a register, or the FIFO, does not end the continuous receive mode.
  pub mode-reads :
      (a : ℕ) (bytes : List ℕ) (c : spi.Chip)
      → a < 128
      → mode c ≡ 0x85
      → mode (spi.xfer (a ∷ bytes) c).1 ≡ 0x85
  -- Writing a register other than the FIFO and the mode.
  pub air-write :
      (a v : ℕ) (c : spi.Chip)
      → 1 < a
      → a < 128
      → v < 256
      → air (spi.xfer ((a + 128) ∷ v ∷ []) c).1 ≡ air c
  pub mode-write :
      (a v : ℕ) (c : spi.Chip)
      → 1 < a
      → a < 128
      → v < 256
      → mode (spi.xfer ((a + 128) ∷ v ∷ []) c).1 ≡ mode c
  pub reg-write :
      (a v b : ℕ) (c : spi.Chip)
      → 1 < a
      → a < 128
      → v < 256
      → is_transmit b ≡ true
      → reg (spi.xfer ((a + 128) ∷ v ∷ []) c).1 b ≡ (if b == a then v else reg c b)
  -- Writing the mode; the mode `TX` of LoRa begins a transmission.
  pub mode-write_mode : (v : ℕ) (c : spi.Chip) → v < 256 → mode (spi.xfer (0x81 ∷ v ∷ []) c).1 ≡ v
  pub air-write_mode :
      (v : ℕ) (c : spi.Chip) → v ≢ 0x83 → air (spi.xfer (0x81 ∷ v ∷ []) c).1 ≡ air c
  pub air-write_tx :
      (c : spi.Chip)
      → air (spi.xfer (0x81 ∷ 0x83 ∷ []) c).1
        ≡ air c ++ taken (fifo c) (reg c 0x0e) (reg c 0x22) ∷ []
  -- Bytes that are written to the FIFO stand from the pointer on.
  pub fifo-burst :
      (bytes : List ℕ) (i : ℕ) (c : spi.Chip)
      → length bytes ≤ 256
      → i < length bytes
      → fifo (spi.xfer (0x80 ∷ bytes) c).1 ((reg c 0x0d + i) % 256) ≡ get_or bytes i 0
  pub air-burst : (bytes : List ℕ) (c : spi.Chip) → air (spi.xfer (0x80 ∷ bytes) c).1 ≡ air c
  pub start-burst :
      (bytes : List ℕ) (c : spi.Chip) → reg (spi.xfer (0x80 ∷ bytes) c).1 0x0e ≡ reg c 0x0e
  pub size-burst :
      (bytes : List ℕ) (c : spi.Chip) → reg (spi.xfer (0x80 ∷ bytes) c).1 0x22 ≡ reg c 0x22
  -- Time begins no transmission, and the continuous receive mode stays.
  pub air-sleep : (ms : ℕ) (c : spi.Chip) → air (spi.sleep ms c) ≡ air c
  pub mode-sleep : (ms : ℕ) (c : spi.Chip) → mode c ≡ 0x85 → mode (spi.sleep ms c) ≡ 0x85

taken-bytes :
    (bytes : List ℕ) (f : ℕ → ℕ) (start : ℕ)
    → ((i : ℕ) → i < length bytes → f ((start + i) % 256) ≡ get_or bytes i 0)
    → taken f start (length bytes) ≡ bytes
taken-bytes [] f start same = refl
taken-bytes (b ∷ bs) f start same =
    ap₂ ◌∷◌ (ap (λ k. f (k % 256)) (sym (zero_right start)) ∙ same 0 (omega arith)) (
      taken-bytes bs f (start + 1)
        (λ i h. ap (λ k. f (k % 256)) (shift start i) ∙ same (suc i) (omega arith)))
  where
    zero_right : (n : ℕ) → n + 0 ≡ n
    zero_right n = omega arith

    shift : (n i : ℕ) → n + 1 + i ≡ n + suc i
    shift n i = omega arith

module _ {spi : Spi} (laws : TransmitLaws spi) (lora : Sx1276) (bytes : List ℕ)
    (small : length bytes < 256) where
  open laws use {air, reg, fifo}

  abbrev start : ℕ
  start = u8 lora.tx_base_addr

  air-prepared : (c : spi.Chip) → air (prepared spi lora bytes (length bytes) c) ≡ air c
  unfolding lora_clear_interrupt_tx_done set_mode write_register
  air-prepared c =
      laws.air-write 0x22 (u8 (length bytes)) _ (omega arith) (omega arith) (omega arith)
      ∙ laws.air-write 0x0e start _ (omega arith) (omega arith) (omega arith)
      ∙ laws.air-write 0x0d start _ (omega arith) (omega arith) (omega arith)
      ∙ laws.air-write 0x12 0x08 _ (omega arith) (omega arith) (omega arith)
      ∙ laws.air-write_mode 0x81 c (λ e. absurd (omega (arith, e)))

  -- The three registers before the bytes are written.
  reg-prepared :
      (c : spi.Chip)
      → (reg (prepared spi lora bytes (length bytes) c) 0x0d ≡ start)
        × (reg (prepared spi lora bytes (length bytes) c) 0x0e ≡ start)
        × (reg (prepared spi lora bytes (length bytes) c) 0x22 ≡ length bytes)
  unfolding lora_clear_interrupt_tx_done set_mode write_register
  reg-prepared c = (
    laws.reg-write 0x22 (u8 (length bytes)) 0x0d _ (omega arith) (omega arith) (omega arith) refl
        ∙ laws.reg-write 0x0e start 0x0d _ (omega arith) (omega arith) (omega arith) refl
        ∙ laws.reg-write 0x0d start 0x0d _ (omega arith) (omega arith) (omega arith) refl,
    laws.reg-write 0x22 (u8 (length bytes)) 0x0e _ (omega arith) (omega arith) (omega arith) refl
        ∙ laws.reg-write 0x0e start 0x0e _ (omega arith) (omega arith) (omega arith) refl,
    laws.reg-write 0x22 (u8 (length bytes)) 0x22 _ (omega arith) (omega arith) (omega arith) refl
        ∙ whole,
  )
    where
      whole : u8 (length bytes) ≡ length bytes
      whole = omega arith

  -- The packet is what goes on the air, as a whole and once.
  pub air-started :
      (c : spi.Chip) → air (started spi lora bytes (length bytes) c) ≡ air c ++ bytes ∷ []
  unfolding set_mode write_register
  air-started c =
      let ready = prepared spi lora bytes (length bytes) c in
      let loaded = (spi.xfer (0x80 ∷ take (length bytes) bytes) ready).1 in
      let (pointer, from, size) = reg-prepared c in
      let whole : take (length bytes) bytes ≡ bytes = take_all (length bytes) bytes (omega arith) in
      let packet : taken (fifo loaded) (reg loaded 0x0e) (reg loaded 0x22) ≡ bytes =
        ap₂ (taken (fifo loaded)) (laws.start-burst (take (length bytes) bytes) ready ∙ from)
          (laws.size-burst (take (length bytes) bytes) ready ∙ size)
        ∙ ap (λ l. taken (fifo (spi.xfer (0x80 ∷ l) ready).1) start (length bytes)) whole
        ∙ taken-bytes bytes (fifo (spi.xfer (0x80 ∷ bytes) ready).1) start (λ i h.
          ap (λ p. fifo (spi.xfer (0x80 ∷ bytes) ready).1 ((p + i) % 256)) (sym pointer)
          ∙ laws.fifo-burst bytes i ready (omega arith) h) in
      laws.air-write_tx loaded
      ∙ ap₂ (λ a f. a ++ f ∷ []) (laws.air-burst (take (length bytes) bytes) ready ∙ air-prepared c)
          packet
