-- ===== src/Packet/Checksum.antt =====
-- lib/packethandler.cpp: `compute_checksum` and `validate_checksum`.
use hydro_lo_ra_shield.Base.{
  ℕ, zero, suc, ◌+◌, ◌-◌, ◌^◌, ◌%◌, ◌<◌, ◌≡◌, ◌≢◌, ◌↔◌, ◌∙◌, refl, Bool, true, false, List, [], ◌∷◌,
  ◌==◌, arith, length, take, set, get_or, u8, u16, ap,
}
use hydro_lo_ra_shield.Packet.{Packet}

-- `uint16_t sum` over the bytes.
sum_bytes : ℕ → List ℕ → ℕ
sum_bytes sum [] = sum
sum_bytes sum (b ∷ bs) = sum_bytes (u16 (sum + b)) bs

-- `~sum` on an `int`, cut to a byte. Every caller has `len` within the payload.
unfoldable pub compute_checksum : Packet → ℕ → ℕ
unfolding sum_bytes
compute_checksum p len = u8 (2 ^ 32 - 1 - sum_bytes 0 (take len p.payload))

unfoldable pub validate_checksum : Packet → ℕ → Bool
unfolding compute_checksum
validate_checksum p chksum = compute_checksum p p.lenght == chksum

-- The sum of the bytes, without the wrap.
pub total : List ℕ → ℕ
total [] = 0
total (b ∷ bs) = b + total bs

sum_bytes-total :
    (acc : ℕ) (bs : List ℕ) → acc < 2 ^ 16 → sum_bytes acc bs ≡ (acc + total bs) % 2 ^ 16
unfolding sum_bytes total
sum_bytes-total acc [] h = omega arith
sum_bytes-total acc (b ∷ bs) h = omega (arith, sum_bytes-total (u16 (acc + b)) bs (omega arith))

-- The checksum of `len` bytes is 255 less the low byte of their sum: the 16-bit wrap of the
-- running sum loses nothing.
pub compute_checksum-total :
    (p : Packet) (len : ℕ) → compute_checksum p len ≡ 255 - total (take len p.payload) % 256
unfolding compute_checksum
compute_checksum-total p len = omega (arith, sum_bytes-total 0 (take len p.payload) (omega arith))

pub compute_checksum-lt : (p : Packet) (len : ℕ) → compute_checksum p len < 256
unfolding compute_checksum
compute_checksum-lt p len = omega arith

-- Only the payload is summed.
pub compute_checksum-record :
    (p : Packet) (c len : ℕ)
    → compute_checksum (record p { checksum = c }) len ≡ compute_checksum p len
unfolding compute_checksum
compute_checksum-record p c len = refl

-- Only the summed bytes count.
pub compute_checksum_content :
    (p q : Packet) (len : ℕ)
    → take len p.payload ≡ take len q.payload
    → compute_checksum p len ≡ compute_checksum q len
unfolding compute_checksum
compute_checksum_content p q len e = ap (λ bs. u8 (2 ^ 32 - 1 - sum_bytes 0 bs)) e

pub validate_checksum_iff :
    (p : Packet) (chksum : ℕ)
    → (validate_checksum p chksum ≡ true) ↔ (compute_checksum p p.lenght ≡ chksum)
unfolding validate_checksum
validate_checksum_iff p chksum = ground arith

pub validate_checksum_content :
    (p q : Packet) (chksum : ℕ)
    → p.lenght ≡ q.lenght
    → take p.lenght p.payload ≡ take p.lenght q.payload
    → validate_checksum p chksum ≡ validate_checksum q chksum
unfolding validate_checksum
validate_checksum_content p q chksum len e =
    ap (λ c. c == chksum) (compute_checksum_content p q p.lenght e ∙ ap (compute_checksum q) len)

total-set :
    (len i v : ℕ) (bs : List ℕ)
    → i < len
    → i < length bs
    → total (take len (set bs i v)) + get_or bs i 0 ≡ total (take len bs) + v
unfolding total
total-set zero i v bs h k = elim h [ ]
total-set (suc len) i v [] h k = elim k [ ]
total-set (suc len) zero v (b ∷ bs) h k = omega arith
total-set (suc len) (suc i) v (b ∷ bs) h k =
    omega (arith, total-set len i v bs (omega arith) (omega arith))

-- A packet whose checksum was accepted is refused after any one of its used bytes is changed to
-- another byte, the checksum being left as it was.
pub validate_checksum-set :
    (p : Packet) (chksum i v : ℕ)
    → i < p.lenght
    → i < length p.payload
    → get_or p.payload i 0 < 256
    → v < 256
    → v ≢ get_or p.payload i 0
    → validate_checksum p chksum ≡ true
    → validate_checksum (record p { payload = set p.payload i v }) chksum ≡ false
unfolding validate_checksum
validate_checksum-set p chksum i v used stored old_byte new_byte differs accepted = ground (
  arith,
  compute_checksum-total p p.lenght,
  compute_checksum-total (record p { payload = set p.payload i v }) p.lenght,
  total-set p.lenght i v p.payload used stored,
)
