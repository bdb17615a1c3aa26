-- ===== src/Padding/Laws.antt =====
-- Padding: what is padded is stripped to what it was, except messages of whole blocks whose last
-- byte looks like a padding length.
use hydro_lo_ra_shield.Base.{
  ℕ, zero, suc, ◌+◌, ◌-◌, ◌%◌, ◌^◌, ◌≤◌, ◌<◌, ◌≡◌, ◌≢◌, ◌⊎◌, refl, ap, ◌∙◌, true, List, ◌++◌, some,
  arith, length, take, drop, replicate, get_elem?, get_or, u32, length-append, length-replicate,
  take_all, load_bytes_in, store_bytes_in, lt→ltb, drop-append_length, take-append_length,
  get_elem?-append_right, get_elem?-eq-get_or, append-nil, ==_refl,
}
use hydro_lo_ra_shield.Padding.{
  padded_size, padding_value, pad, valid, all_are, check_padding, deliver, strip,
}

same_count : {n m : ℕ} (v : ℕ) → n ≡ m → replicate n v ≡ replicate m v
same_count v e = ap (λ k. replicate k v) e

drop-replicate : (n m v : ℕ) → drop n (replicate m v) ≡ replicate (m - n) v
drop-replicate zero m v = same_count {n = m} {m = m - 0} v (omega arith)
drop-replicate (suc n) zero v = same_count {n = 0} {m = 0 - suc n} v (omega arith)
drop-replicate (suc n) (suc m) v =
    drop-replicate n m v ∙ same_count {n = m - n} {m = suc m - suc n} v (omega arith)

-- The padded length is a whole number of blocks and at most 15 above the size.
pub padded_size_bounds :
    (size : ℕ)
    → size + 15 < 2 ^ 32
    → (padded_size size % 16 ≡ 0) × (size ≤ padded_size size) × (padded_size size < size + 16)
unfolding padded_size
padded_size_bounds size h = omega arith

padding_value_lem : (size : ℕ) → size + 15 < 2 ^ 32 → padding_value size ≡ padded_size size - size
unfolding padding_value padded_size
padding_value_lem size h = omega arith

-- The number of padding bytes.
abbrev pub padding : ℕ → ℕ
padding size = padded_size size - size

-- The padding follows the message, each byte of it the number of them.
pub pad_lem :
    (message : List ℕ) (size : ℕ)
    → length message ≡ size
    → size + 15 < 2 ^ 32
    → pad message size ≡ some (message ++ replicate (padding size) (padding size))
unfolding pad
pad_lem message size len fits =
    rw
      (
        load_bytes_in 0 size message (omega arith),
        take_all size message (omega arith),
        store_bytes_in message (replicate (padded_size size) (padding_value size)) (
            omega (
              arith,
              length-replicate (padded_size size) (padding_value size),
              padded_size_bounds size fits,
            )),
        drop-replicate (length message) (padded_size size) (padding_value size),
        padding_value_lem size fits,
        len,
      )
      refl

all_are-replicate : (n v : ℕ) → all_are v (replicate n v) ≡ true
unfolding all_are
all_are-replicate zero v = refl
all_are-replicate (suc n) v = ground (arith, ==_refl v, all_are-replicate n v)

get_elem?-replicate : (n i v : ℕ) → i < n → get_elem? (replicate n v) i ≡ some v
get_elem?-replicate zero i v h = elim h [ ]
get_elem?-replicate (suc n) zero v h = refl
get_elem?-replicate (suc n) (suc i) v h = get_elem?-replicate n i v (omega arith)

last_padding :
    (message : List ℕ) (p v : ℕ)
    → 0 < p
    → get_elem? (message ++ replicate p v) (length message + (p - 1)) ≡ some v
last_padding message p v h =
    get_elem?-append_right (p - 1) message (replicate p v)
    ∙ get_elem?-replicate p (p - 1) v (omega arith)

-- The verdict on a buffer whose last byte is `v`.
pub strip-last :
    (total v : ℕ) (buffer : List ℕ)
    → 0 < total
    → total < 2 ^ 32
    → get_elem? buffer (total - 1) ≡ some v
    → strip total buffer ≡ some (deliver (check_padding v total buffer) total buffer)
unfolding strip
strip-last total v buffer pos fits last = rw (index, last) refl
  where
    index : u32 (total + 2 ^ 32 - 1) ≡ total - 1
    index = omega arith

pub check_padding_valid :
    (n total : ℕ) (buffer : List ℕ)
    → 0 < n
    → n < 16
    → all_are n (drop (u32 (total + 2 ^ 32 - n)) buffer) ≡ true
    → check_padding n total buffer ≡ valid n
unfolding check_padding
check_padding_valid n total buffer pos small same =
    rw (lt→ltb 0 n pos, lt→ltb n 16 small, same) refl

check_padding_none :
    (v total : ℕ) (buffer : List ℕ)
    → (v ≡ 0) ⊎ (16 ≤ v)
    → total % 16 ≡ 0
    → check_padding v total buffer ≡ valid 0
unfolding check_padding
check_padding_none v total buffer h e = ground arith

module _ (message : List ℕ) (size : ℕ) (len : length message ≡ size) (pos : 0 < size)
    (fits : size + 15 < 2 ^ 32) where
  abbrev pub padded : List ℕ
  padded = message ++ replicate (padding size) (padding size)

  pub length-padded : length padded ≡ padded_size size
  length-padded = omega (
    arith,
    length-append message (replicate (padding size) (padding size)),
    length-replicate (padding size) (padding size),
    padded_size_bounds size fits,
  )

  pub take-padded : take size padded ≡ message
  take-padded = take-append_length size message (replicate (padding size) (padding size)) len

  pub padded_pos : 0 < padded_size size
  padded_pos = omega (arith, padded_size_bounds size fits)

  pub padded_fits : padded_size size < 2 ^ 32
  padded_fits = omega (arith, padded_size_bounds size fits)

  unpadded_size : u32 (padded_size size + 2 ^ 32 - padding size) ≡ size
  unpadded_size = omega (arith, padded_size_bounds size fits)

  -- A message that does not fill its last block.
  pub strip-padded_part :
      size % 16 ≢ 0
      → strip (padded_size size) padded ≡ some (some (record { bytes = padded; len = size }))
  unfolding deliver
  strip-padded_part partly =
      strip-last (padded_size size) (padding size) padded padded_pos padded_fits (
        ap (get_elem? padded) last_index
        ∙ last_padding message (padding size) (padding size) some_padding)
      ∙ rw (accepted, unpadded_size) refl
    where
      some_padding : 0 < padding size
      some_padding = omega (arith, padded_size_bounds size fits)

      last_index : padded_size size - 1 ≡ length message + (padding size - 1)
      last_index = omega (arith, padded_size_bounds size fits)

      accepted : check_padding (padding size) (padded_size size) padded ≡ valid (padding size)
      accepted =
          check_padding_valid (padding size) (padded_size size) padded some_padding
            (omega (arith, padded_size_bounds size fits))
            (ap (λ k. all_are (padding size) (drop k padded)) unpadded_size
              ∙ ap (all_are (padding size)) (drop-append_length size message _ len)
              ∙ all_are-replicate (padding size) (padding size))

  module _ (whole : size % 16 ≡ 0) where
    no_padding_bytes : padding size ≡ 0
    no_padding_bytes = omega (arith, padded_size_bounds size fits)

    pub same_size : padded_size size ≡ size
    same_size = omega (arith, padded_size_bounds size fits)

    pub last_byte : get_elem? padded (padded_size size - 1) ≡ some (get_or message (size - 1) 0)
    last_byte =
        ap (λ k. get_elem? (message ++ replicate k (padding size)) (padded_size size - 1))
          no_padding_bytes
        ∙ rw (append-nil message, same_size)
            (get_elem?-eq-get_or message (size - 1) 0 (omega arith))

    -- A message of whole blocks whose last byte is no padding length.
    pub strip-padded_whole :
        (get_or message (size - 1) 0 ≡ 0) ⊎ (16 ≤ get_or message (size - 1) 0)
        → strip (padded_size size) padded ≡ some (some (record { bytes = padded; len = size }))
    unfolding deliver
    strip-padded_whole plain =
        strip-last (padded_size size) (get_or message (size - 1) 0) padded padded_pos padded_fits
          last_byte
        ∙ rw
            (check_padding_none (get_or message (size - 1) 0) (padded_size size) padded plain
              (omega (arith, padded_size_bounds size fits)))
            (ap (λ k. some (some (record { bytes = padded; len = k }))) kept)
      where
        kept : u32 (padded_size size + 2 ^ 32 - 0) ≡ size
        kept = omega (arith, same_size)

    pub padded-whole : padded ≡ message
    padded-whole = ap (λ k. message ++ replicate k k) no_padding_bytes ∙ append-nil message
