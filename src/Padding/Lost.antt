-- ===== src/Padding/Lost.antt =====
-- A message of whole blocks whose last byte looks like a padding length.
use hydro_lo_ra_shield.Base.{
  Bool, false, All, [], ◌∷◌, ap₂, sym, Bool-cases, ℕ, ◌+◌, ◌-◌, ◌%◌, ◌^◌, ◌≤◌, ◌<◌, ◌≡◌, ◌≢◌, ◌⊎◌,
  inl, inr, refl, ap, ◌∙◌, true, List, none, some, arith, length, drop, get_or, u32, lt→ltb,
}
use hydro_lo_ra_shield.Padding.{padded_size, mismatch, all_are, check_padding, deliver, strip}
use hydro_lo_ra_shield.Padding.Laws.{
  padded, padded_pos, padded_fits, last_byte, same_size, padded-whole, strip-last,
  check_padding_valid,
}

true_not_false : ◌≢◌ {A = Bool} true false
true_not_false e = cc

check_padding_mismatch :
    (n total : ℕ) (buffer : List ℕ)
    → 0 < n
    → n < 16
    → all_are n (drop (u32 (total + 2 ^ 32 - n)) buffer) ≡ false
    → check_padding n total buffer ≡ mismatch
unfolding check_padding
check_padding_mismatch n total buffer pos small other =
    rw (lt→ltb 0 n pos, lt→ltb n 16 small, other) refl

-- Bytes that are all `v`.
abbrev pub AreAll : ℕ → List ℕ → Type 0
AreAll v bytes = All (λ b. b ≡ v) bytes

all_are-AreAll : (v : ℕ) (bytes : List ℕ) → all_are v bytes ≡ true → AreAll v bytes
unfolding all_are
all_are-AreAll v [] e = tt
all_are-AreAll v (b ∷ bs) e = (ground arith, all_are-AreAll v bs (ground arith))

AreAll-all_are : (v : ℕ) (bytes : List ℕ) → AreAll v bytes → all_are v bytes ≡ true
unfolding all_are
AreAll-all_are v [] h = refl
AreAll-all_are v (b ∷ bs) (h, hs) = ground (arith, AreAll-all_are v bs hs)

module _ (message : List ℕ) (size : ℕ) (len : length message ≡ size) (pos : 0 < size)
    (fits : size + 15 < 2 ^ 32) (whole : size % 16 ≡ 0) where
  -- A message of whole blocks whose last byte is from 1 to 15 is cut or dropped.
  pub strip-padded_lost :
      let v = get_or message (size - 1) 0 in
      0 < v
      → v < 16
      → (AreAll v (drop (size - v) message)
          × (strip (padded_size size) (padded message size len pos fits)
              ≡ some
                  (some (record { bytes = (padded message size len pos fits); len = size - v }))))
        ⊎ ((¬ AreAll v (drop (size - v) message))
            × (strip (padded_size size) (padded message size len pos fits) ≡ some none))
  unfolding deliver
  strip-padded_lost low high =
      let start =
        strip-last (padded_size size) v (padded message size len pos fits)
          (padded_pos message size len pos fits) (padded_fits message size len pos fits)
          (last_byte message size len pos fits whole) in
      elim (Bool-cases (all_are v (drop (size - v) message))) [
        | inl same ↦ inl (
          all_are-AreAll v _ same,
          start
              ∙ rw
                  (check_padding_valid v (padded_size size) (padded message size len pos fits) low
                    high (at_end ∙ same))
                  (ap
                    (λ k.
                      some (some (record { bytes = (padded message size len pos fits); len = k })))
                    cut),
        )
        | inr other ↦ inr (
          λ h. true_not_false (sym (AreAll-all_are v _ h) ∙ other),
          start
              ∙ rw
                  (check_padding_mismatch v (padded_size size) (padded message size len pos fits)
                    low high (at_end ∙ other))
                  refl,
        )
      ]
    where
      v : ℕ
      v = get_or message (size - 1) 0

      inside : v ≤ size
      inside = omega (arith, pos, whole, high)

      cut : u32 (padded_size size + 2 ^ 32 - v) ≡ size - v
      cut = omega (arith, (same_size message size len pos fits whole), inside, low, fits)

      at_end :
          all_are v (drop (u32 (padded_size size + 2 ^ 32 - v)) (padded message size len pos fits))
          ≡ all_are v (drop (size - v) message)
      at_end =
          ap₂ (λ k bytes. all_are v (drop k bytes)) cut
            (padded-whole message size len pos fits whole)
