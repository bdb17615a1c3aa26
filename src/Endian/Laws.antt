-- ===== src/Endian/Laws.antt =====
-- What the byte orders do to a byte array: big-endian writing and swapping reverse each word.
use hydro_lo_ra_shield.Base.{
  ℕ, zero, suc, ◌+◌, ◌*◌, ◌/◌, ◌%◌, ◌<◌, ◌≡◌, refl, ap, ap₂, ◌∙◌, List, [], ◌∷◌, arith, length,
  bit_and, bit_or, bit_and_255, bit_and_byte, bit_or_fields, IsByte, IsBytes,
}
use hydro_lo_ra_shield.Endian.{load_words, store_words, u32_to_bytes, swap_word, swap_endianness}

-- The bytes of each whole word in the opposite order.
unfoldable pub reverse_words : List ℕ → List ℕ
reverse_words (a ∷ b ∷ c ∷ d ∷ bs) = d ∷ c ∷ b ∷ a ∷ reverse_words bs
reverse_words _ = []

abbrev word : ℕ → ℕ → ℕ → ℕ → ℕ
word a b c d = a + b * 256 + c * 65536 + d * 16777216

mask_1 : (v : ℕ) → bit_and v 0x0000ff00 ≡ 256 * (v / 256 % 256)
mask_1 v = omega (arith, bit_and_byte v 0xff, bit_and_255 (v / 256))

mask_2 : (v : ℕ) → bit_and v 0x00ff0000 ≡ 65536 * (v / 65536 % 256)
mask_2 v = omega (arith, bit_and_byte v 0xff00, mask_1 (v / 256))

mask_3 : (v : ℕ) → bit_and v 0xff000000 ≡ 16777216 * (v / 16777216 % 256)
mask_3 v = omega (arith, bit_and_byte v 0xff0000, mask_2 (v / 256))

-- Four bytes at four places do not overlap.
join_bytes :
    (x y z w : ℕ)
    → y < 256
    → z < 256
    → w < 256
    → bit_or (bit_or (bit_or (x * 16777216) (y * 65536)) (z * 256)) w
      ≡ x * 16777216 + y * 65536 + z * 256 + w
join_bytes x y z w hy hz hw =
    ap (λ t. bit_or (bit_or t (z * 256)) w) first ∙ ap (λ t. bit_or t w) second ∙ third
  where
    first : bit_or (x * 16777216) (y * 65536) ≡ (x * 256 + y) * 65536
    first = omega (arith, bit_or_fields 24 x (y * 65536) (omega arith))

    second : bit_or ((x * 256 + y) * 65536) (z * 256) ≡ (x * 65536 + y * 256 + z) * 256
    second = omega (arith, bit_or_fields 16 (x * 256 + y) (z * 256) (omega arith))

    third : bit_or ((x * 65536 + y * 256 + z) * 256) w ≡ x * 16777216 + y * 65536 + z * 256 + w
    third = omega (arith, bit_or_fields 8 (x * 65536 + y * 256 + z) w hw)

pub swap_word_sum :
    (v : ℕ)
    → swap_word v
      ≡ v % 256 * 16777216 + v / 256 % 256 * 65536 + v / 65536 % 256 * 256 + v / 16777216 % 256
unfolding swap_word
swap_word_sum v =
    rw (bit_and_255 v, mask_1 v, mask_2 v, mask_3 v)
      (ap₂ bit_or (ap₂ bit_or (ap₂ bit_or (omega arith) (omega arith)) (omega arith)) (omega arith)
        ∙ join_bytes (v % 256) (v / 256 % 256) (v / 65536 % 256) (v / 16777216 % 256) (omega arith)
            (omega arith) (omega arith))

-- A whole number of words of bytes.
pub data WholeWords : List ℕ → Type 0 where
  end : WholeWords []
  quad :
      {bs : List ℕ} (a b c d : ℕ)
      → IsByte a
      → IsByte b
      → IsByte c
      → IsByte d
      → WholeWords bs
      → WholeWords (a ∷ b ∷ c ∷ d ∷ bs)

pub WholeWords-four : (n : ℕ) (bs : List ℕ) → IsBytes bs → length bs ≡ n * 4 → WholeWords bs
WholeWords-four zero [] ok len = end
WholeWords-four zero (a ∷ bs) ok len = absurd (omega arith)
WholeWords-four (suc n) [] ok len = absurd (omega arith)
WholeWords-four (suc n) (a ∷ []) ok len = absurd (omega arith)
WholeWords-four (suc n) (a ∷ b ∷ []) ok len = absurd (omega arith)
WholeWords-four (suc n) (a ∷ b ∷ c ∷ []) ok len = absurd (omega arith)
WholeWords-four (suc n) (a ∷ b ∷ c ∷ d ∷ bs) ok len =
    quad a b c d ok.0 ok.1.0 ok.1.1.0 ok.1.1.1.0 (WholeWords-four n bs ok.1.1.1.1 (omega arith))

four {ℓ} :
    {A : Type ℓ} {a b c d a' b' c' d' : A} {xs ys : List A}
    → a ≡ a'
    → b ≡ b'
    → c ≡ c'
    → d ≡ d'
    → xs ≡ ys
    → (a ∷ b ∷ c ∷ d ∷ xs) ≡ (a' ∷ b' ∷ c' ∷ d' ∷ ys)
four p q r s t = ap₂ ◌∷◌ p (ap₂ ◌∷◌ q (ap₂ ◌∷◌ r (ap₂ ◌∷◌ s t)))

-- `store_words` undoes `load_words`.
pub store_words-load_words : {bs : List ℕ} → WholeWords bs → store_words (load_words bs) ≡ bs
unfolding store_words load_words
store_words-load_words end = refl
store_words-load_words (quad a b c d ha hb hc hd w) =
    four (omega (arith, bit_and_255 (word a b c d)))
      (omega (arith, bit_and_255 (word a b c d / 256)))
      (omega (arith, bit_and_255 (word a b c d / 65536)))
      (omega (arith, bit_and_255 (word a b c d / 16777216))) (store_words-load_words w)

-- `u32_to_bytes` of the words of a byte array reverses each word.
pub u32_to_bytes-load_words :
    {bs : List ℕ} → WholeWords bs → u32_to_bytes (load_words bs) ≡ reverse_words bs
unfolding u32_to_bytes load_words reverse_words
u32_to_bytes-load_words end = refl
u32_to_bytes-load_words (quad a b c d ha hb hc hd w) =
    four (omega (arith, bit_and_255 (word a b c d / 16777216)))
      (omega (arith, bit_and_255 (word a b c d / 65536)))
      (omega (arith, bit_and_255 (word a b c d / 256))) (omega (arith, bit_and_255 (word a b c d)))
      (u32_to_bytes-load_words w)

-- `swap_endianness` in place reverses the bytes of each word.
pub swap_endianness_bytes :
    {bs : List ℕ} → WholeWords bs → store_words (swap_endianness (load_words bs)) ≡ reverse_words bs
unfolding store_words swap_endianness load_words reverse_words
swap_endianness_bytes end = refl
swap_endianness_bytes (quad a b c d ha hb hc hd w) =
    let v = word a b c d in
    let s = swap_word v in
    four (omega (arith, bit_and_255 s, swap_word_sum v))
      (omega (arith, bit_and_255 (s / 256), swap_word_sum v))
      (omega (arith, bit_and_255 (s / 65536), swap_word_sum v))
      (omega (arith, bit_and_255 (s / 16777216), swap_word_sum v)) (swap_endianness_bytes w)

pub reverse_words_twice : {bs : List ℕ} → WholeWords bs → reverse_words (reverse_words bs) ≡ bs
unfolding reverse_words
reverse_words_twice end = refl
reverse_words_twice (quad a b c d ha hb hc hd w) = four refl refl refl refl (reverse_words_twice w)

pub reverse_words-WholeWords : {bs : List ℕ} → WholeWords bs → WholeWords (reverse_words bs)
unfolding reverse_words
reverse_words-WholeWords end = end
reverse_words-WholeWords (quad a b c d ha hb hc hd w) =
    quad d c b a hd hc hb ha (reverse_words-WholeWords w)

pub length-reverse_words : {bs : List ℕ} → WholeWords bs → length (reverse_words bs) ≡ length bs
unfolding reverse_words
length-reverse_words end = refl
length-reverse_words (quad a b c d ha hb hc hd w) = omega (arith, length-reverse_words w)

pub WholeWords-IsBytes : {bs : List ℕ} → WholeWords bs → IsBytes bs
WholeWords-IsBytes end = tt
WholeWords-IsBytes (quad a b c d ha hb hc hd w) = (ha, (hb, (hc, (hd, WholeWords-IsBytes w))))
