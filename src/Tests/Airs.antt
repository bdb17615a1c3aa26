-- ===== src/Tests/Airs.antt =====
-- A chip that transmits as the datasheet describes, and what is sent over it.
use hydro_lo_ra_shield.Base.{
  ℕ, ◌+◌, ◌-◌, ◌%◌, ◌<◌, ◌≤◌, ◌≡◌, refl, ap, ◌∙◌, false, Bool, List, [], ◌∷◌, ◌++◌, some, arith,
  length, replicate, get_or, ltb, lt→ltb, ◌==◌, if◌then◌else◌,
}
use hydro_lo_ra_shield.Spi.{Spi}
use hydro_lo_ra_shield.Lora.{Device, receiving}
use hydro_lo_ra_shield.Lora.Radio.{send}
use hydro_lo_ra_shield.Lora.Air.{IsSent, send-IsSent}
use hydro_lo_ra_shield.Entries.{slot}
use hydro_lo_ra_shield.Exchange.Sending.{sent_entry}
use hydro_lo_ra_shield.Handler.{Handler}
use hydro_lo_ra_shield.Interface.{Request}
use hydro_lo_ra_shield.Main.System.{request}
use hydro_lo_ra_shield.Main.Request.{IsRequested, request-IsRequested}
use hydro_lo_ra_shield.Tests.Toys.{toy_aes, toy_aes_laws}
use hydro_lo_ra_shield.Tests.Texts.{idle, blank, blanks_fit}
use hydro_lo_ra_shield.Driver.Files.{put}
use hydro_lo_ra_shield.Driver.Transfer.Air.{taken, TransmitLaws}

pub record AirChip : Type 0 where
  pub regs : ℕ → ℕ
  pub fifo : ℕ → ℕ
  pub aired : List (List ℕ)

-- The FIFO after bytes have been written from a position on.
abbrev burst : List ℕ → ℕ → (ℕ → ℕ) → ℕ → ℕ
burst bytes start fifo k =
    let offset = (k + 256 - start % 256) % 256 in
    if ltb offset (length bytes) then get_or bytes offset 0 else fifo k

abbrev reg_write : ℕ → ℕ → AirChip → AirChip
reg_write a v c =
    if a == 0x01
    then (if v == 0x83
        then record c {
          regs = put a v c.regs;
          aired = c.aired ++ taken c.fifo (c.regs 0x0e) (c.regs 0x22) ∷ [];
        }
        else record c { regs = put a v c.regs })
    else record c { regs = put a v c.regs }

abbrev reg_xfer : ℕ → List ℕ → AirChip → List ℕ × AirChip
reg_xfer a [] c = ([], c)
reg_xfer a (v ∷ more) c =
    if ltb a 128 then (0 ∷ c.regs a ∷ [], c) else ([], reg_write (a - 128) v c)

abbrev air_xfer : List ℕ → AirChip → List ℕ × AirChip
air_xfer [] c = ([], c)
air_xfer (a ∷ tx) c =
    if a == 0x80 then ([], record c { fifo = burst tx (c.regs 0x0d) c.fifo }) else reg_xfer a tx c

abbrev pub air_spi : Spi
air_spi = record { Chip = AirChip; xfer = air_xfer; sleep = λ ms c. c }

written_other :
    (a v : ℕ) (c : AirChip)
    → 1 < a
    → a < 128
    → (air_xfer ((a + 128) ∷ v ∷ []) c).1 ≡ record c { regs = put a v c.regs }
written_other a v c h k = ground arith

apart : (a b : ℕ) → 1 < a → (1 == a) ≡ false
apart a b h = ground arith

burst_at :
    (bytes : List ℕ) (i : ℕ) (start : ℕ) (fifo : ℕ → ℕ)
    → length bytes ≤ 256
    → i < length bytes
    → burst bytes start fifo ((start + i) % 256) ≡ get_or bytes i 0
burst_at bytes i start fifo h k = rw (offset, lt→ltb i (length bytes) k) refl
  where
    offset : ((start + i) % 256 + 256 - start % 256) % 256 ≡ i
    offset = omega arith

read_kept :
    (a : ℕ) (bytes : List ℕ) (c : AirChip)
    → a < 128
    → ((air_xfer (a ∷ bytes) c).1).regs 0x01 ≡ c.regs 0x01
read_kept a [] c h = ground arith
read_kept a (v ∷ more) c h = ground arith

pub air_laws : TransmitLaws air_spi
air_laws = record {
  air = λ c. c.aired;
  mode = λ c. c.regs 0x01;
  reg = λ c a. c.regs a;
  fifo = λ c. c.fifo;
  mode-read = λ c. refl;
  air-read_mode = λ c. refl;
  mode-reads = λ a bytes c h on. read_kept a bytes c h ∙ on;
  air-write = λ a v c h k l. ap (λ t. t.aired) (written_other a v c h k);
  mode-write =
      λ a v c h k l. ap (λ t. t.regs 0x01) (written_other a v c h k) ∙ rw (apart a v h) refl;
  reg-write = λ a v b c h k l t. ap (λ t. t.regs b) (written_other a v c h k);
  mode-write_mode = λ v c h. ground arith;
  air-write_mode = λ v c other. ground arith;
  air-write_tx = λ c. refl;
  fifo-burst = λ bytes i c h k. burst_at bytes i (c.regs 0x0d) c.fifo h k;
  air-burst = λ bytes c. refl;
  start-burst = λ bytes c. refl;
  size-burst = λ bytes c. refl;
  air-sleep = λ ms c. refl;
  mode-sleep = λ ms c e. e;
}

abbrev chip : AirChip
chip = record { regs = λ a. 0; fifo = λ k. 0; aired = [] }

abbrev device : Device air_spi
device = record {
  mode = receiving;
  lora = record {
    spi_timeout = 1000;
    frequency = 0;
    pa_mode = 1;
    tx_base_addr = 128;
    rx_base_addr = 0;
  };
  chip = chip;
}

abbrev zeros : ℕ → List ℕ
zeros n = replicate n 0

-- "Hi".
abbrev greeting : List ℕ
greeting = 72 ∷ 105 ∷ []

no_entry : slot (sent_entry (λ i. i) 7) idle.messages ≡ []
unfolding slot
no_entry = refl

request-IsRequested_example :
    (r : Request) × (last : Handler toy_aes) × (after : Device air_spi) × (request zeros greeting
        (λ i. i)
        7
        (λ i. blank)
        (λ i. 0)
        2
        idle
        device
      ≡ some (last, after))
    × IsRequested toy_aes_laws air_laws zeros greeting
        (λ i. i)
        7
        (λ i. blank)
        (λ i. 0)
        idle
        device
        r
        last
        after
request-IsRequested_example =
    request-IsRequested toy_aes_laws air_laws zeros greeting (λ i. i) 7 (λ i. blank) (λ i. 0) idle
      device (omega arith) (omega arith) (omega arith, (omega arith, tt)) blanks_fit no_entry

send-IsSent_example :
    (sent : Bool) × (after : Device air_spi) × (send air_spi greeting 2 device ≡ some (sent, after))
    × IsSent air_laws greeting device sent after
send-IsSent_example = send-IsSent air_laws greeting device (omega arith)
