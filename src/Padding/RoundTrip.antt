-- ===== src/Padding/RoundTrip.antt =====
-- The padding as a round trip, and the messages for which it is none.
use native.Mathlib.Decide.{ℕ_discrete}
use hydro_lo_ra_shield.Base.{
  ℕ, ◌+◌, ◌-◌, ◌%◌, ◌^◌, ◌≤◌, ◌<◌, ◌≡◌, ◌≢◌, ◌⊎◌, inl, inr, ap, ◌∙◌, List, none, some, arith,
  length, take, get_elem?, get_or, u32, drop, drop_beyond, [],
}
use hydro_lo_ra_shield.Padding.{padded_size, pad, strip, check_padding, deliver, valid, all_are}
use mathlib.Core.Path.{subst}
use hydro_lo_ra_shield.Padding.Lost.{AreAll, strip-padded_lost}
use hydro_lo_ra_shield.Padding.Laws.{
  padded-whole, padded, pad_lem, take-padded, strip-padded_part, strip-padded_whole,
  check_padding_valid, strip-last,
}

-- Messages whose last byte cannot be taken for a padding length, or that do get padding.
abbrev pub IsPlain : List ℕ → ℕ → Type 0
IsPlain message size =
    (size % 16 ≢ 0) ⊎ ((get_or message (size - 1) 0 ≡ 0) ⊎ (16 ≤ get_or message (size - 1) 0))

-- Padding a message of `size` bytes succeeds, and stripping the padded buffer hands over a buffer
-- that starts with the message and the length `size`, if the message is not empty, is short of
-- 2^32 by the padding, and either does not fill its last block or ends in a byte that is 0 or at
-- least 16.
pub strip-pad :
    (message : List ℕ) (size : ℕ)
    → length message ≡ size
    → 0 < size
    → size + 15 < 2 ^ 32
    → IsPlain message size
    → (buffer : List ℕ) × (pad message size ≡ some buffer)
      × (strip (padded_size size) buffer ≡ some (some (record { bytes = buffer; len = size })))
      × (take size buffer ≡ message)
strip-pad message size len pos fits plain = (
  padded message size len pos fits,
  pad_lem message size len fits,
  stripped,
  take-padded message size len pos fits,
)
  where
    stripped :
        strip (padded_size size) (padded message size len pos fits)
        ≡ some (some (record { bytes = padded message size len pos fits; len = size }))
    stripped = elim plain [
      | inl partly ↦ strip-padded_part message size len pos fits partly
      | inr last ↦ elim (ℕ_discrete (size % 16) 0) [
        | yes whole ↦ strip-padded_whole message size len pos fits whole last
        | no partly ↦ strip-padded_part message size len pos fits partly
      ]
    ]

-- A message of whole blocks whose last byte, `v`, is from 1 to 15 gets no padding and does not
-- survive: if its last `v` bytes are all `v` it is handed over without them, and if they are not it
-- is rejected.
pub strip-pad_lost :
    (message : List ℕ) (size : ℕ)
    → length message ≡ size
    → 0 < size
    → size + 15 < 2 ^ 32
    → size % 16 ≡ 0
    → 0 < get_or message (size - 1) 0
    → get_or message (size - 1) 0 < 16
    → (pad message size ≡ some message)
      × ((AreAll (get_or message (size - 1) 0) (drop (size - get_or message (size - 1) 0) message)
            × (strip (padded_size size) message
                ≡ some
                    (some (record { bytes = message; len = size - get_or message (size - 1) 0 }))))
          ⊎ ((¬ AreAll
                (get_or message (size - 1) 0)
                (drop (size - get_or message (size - 1) 0) message))
              × (strip (padded_size size) message ≡ some none)))
strip-pad_lost message size len pos fits whole low high =
    subst
      (λ (buffer : List ℕ).
        (pad message size ≡ some buffer)
        × ((AreAll v last_bytes
              × (strip (padded_size size) buffer
                  ≡ some (some (record { bytes = buffer; len = size - v }))))
            ⊎ ((¬ AreAll v last_bytes) × (strip (padded_size size) buffer ≡ some none))))
      (padded-whole message size len pos fits whole)
      (pad_lem message size len fits, strip-padded_lost message size len pos fits whole low high)
  where
    v : ℕ
    v = get_or message (size - 1) 0

    last_bytes : List ℕ
    last_bytes = drop (size - v) message

-- A buffer shorter than the padding length that its last byte states is handed over with a length
-- far beyond its end.
pub strip_short :
    (total v : ℕ) (buffer : List ℕ)
    → length buffer ≡ total
    → 0 < total
    → get_elem? buffer (total - 1) ≡ some v
    → total < v
    → v < 16
    → (strip total buffer ≡ some (some (record { bytes = buffer; len = total + 2 ^ 32 - v })))
      × (length buffer + 2 ^ 31 < total + 2 ^ 32 - v)
unfolding deliver
strip_short total v buffer len pos last short small = (
  strip-last total v buffer pos (omega arith) last
      ∙ rw accepted (ap (λ k. some (some (record { bytes = buffer; len = k }))) wrapped),
  omega arith,
)
  where
    wrapped : u32 (total + 2 ^ 32 - v) ≡ total + 2 ^ 32 - v
    wrapped = omega arith

    nothing_left : drop (u32 (total + 2 ^ 32 - v)) buffer ≡ []
    nothing_left = drop_beyond (u32 (total + 2 ^ 32 - v)) buffer (omega arith)

    accepted : check_padding v total buffer ≡ valid v
    accepted =
        check_padding_valid v total buffer (omega arith) small
          (unfold all_are in ap (all_are v) nothing_left)
