-- ===== src/Exchange/Fragmented.antt =====
-- The fragments of a padded and encrypted message.
use mathlib.Core.Path.{subst}
use hydro_lo_ra_shield.Base.{
  ℕ, ◌+◌, ◌/◌, ◌≤◌, ◌<◌, ◌≡◌, sym, ◌∙◌, List, some, arith, length, take, u8, IsBytes, IsByte,
  All-append, All-replicate,
}
use hydro_lo_ra_shield.Packet.{Packet}
use hydro_lo_ra_shield.Padding.{padded_size, pad, strip}
use hydro_lo_ra_shield.Padding.Laws.{padding, padded_size_bounds, pad_lem, padded, length-padded}
use hydro_lo_ra_shield.Padding.RoundTrip.{IsPlain, strip-pad}
use hydro_lo_ra_shield.Aes.{Aes, AesLaws}
use hydro_lo_ra_shield.Handler.Send.{fragments, raw_fragments}
use hydro_lo_ra_shield.Handler.Send.Fragments.{join, Run, IsStale, fragments_lem}

-- The most bytes that 255 fragments carry, in whole blocks: 1896 blocks of 16.
abbrev pub longest : ℕ
longest = 30336

pub raw_fragments_lem :
    (size : ℕ)
    → 0 < size
    → size ≤ longest
    → (u8 (raw_fragments (padded_size size)) ≡ (padded_size size + 118) / 119)
      × ((padded_size size + 118) / 119 ≤ 255)
      × (0 < (padded_size size + 118) / 119)
unfolding raw_fragments
raw_fragments_lem size pos small = omega (arith, padded_size_bounds size (omega arith))

module _ (message : List ℕ) (size : ℕ) (len : length message ≡ size) (pos : 0 < size)
    (small : size ≤ longest) (bytes : IsBytes message) where
  pub padded-IsBytes :
      (buffer : List ℕ)
      → pad message size ≡ some buffer
      → IsBytes buffer × (length buffer ≡ padded_size size)
  padded-IsBytes buffer e =
      subst (λ b. IsBytes b × (length b ≡ padded_size size)) same
        (
          All-append IsByte message _ bytes (
              All-replicate IsByte (padding size) (padding size)
                (omega (arith, padded_size_bounds size (omega arith)))),
          length-padded message size len pos (omega arith),
        )
    where
      same : padded message size len pos (omega arith) ≡ buffer
      same = cc (sym (pad_lem message size len (omega arith)) ∙ e)

  module _ {aes : Aes} (laws : AesLaws aes) (c : aes.Ctx) (type id : ℕ) (stale : ℕ → List ℕ)
      (type_fits : type < 256) (id_fits : id < 256) (rooms : IsStale stale) (buffer : List ℕ)
      (padding_added : pad message size ≡ some buffer) where
    -- The fragments of a message are made without a fault, are numbered from 0, carry the
    -- encrypted buffer, and are as many as each of them says.
    pub fragments-total :
        (ps : List Packet) × (fragments type id
            (u8 (raw_fragments (padded_size size)))
            (aes.ctr_xcrypt c buffer).0
            (padded_size size)
            (padded_size size)
            0
            0
            stale
          ≡ some ps)
        × Run type id (u8 (raw_fragments (padded_size size))) 0 ps
        × (join ps ≡ (aes.ctr_xcrypt c buffer).0)
        × (length ps ≡ u8 (raw_fragments (padded_size size)))
    fragments-total =
        let (ps, made, run, joined, count) =
          fragments_lem type id (u8 (raw_fragments (padded_size size))) (aes.ctr_xcrypt c buffer).0
            type_fits id_fits (omega arith)
            (laws.ctr_xcrypt-IsBytes c buffer (padded-IsBytes buffer padding_added).0)
            (padded_size size) (padded_size size) 0 0 stale (omega arith)
            (omega
              (arith, laws.length-ctr_xcrypt c buffer, (padded-IsBytes buffer padding_added).1))
            (omega (arith, raw_fragments_lem size pos small)) rooms in
        (ps, made, run, joined, omega (arith, count, raw_fragments_lem size pos small))

    -- So is the list that the fragment loop returns.
    pub sent-Run :
        (ps : List Packet)
        → fragments type id
            (u8 (raw_fragments (padded_size size)))
            (aes.ctr_xcrypt c buffer).0
            (padded_size size)
            (padded_size size)
            0
            0
            stale
          ≡ some ps
        → Run type id (u8 (raw_fragments (padded_size size))) 0 ps
          × (join ps ≡ (aes.ctr_xcrypt c buffer).0)
          × (length ps ≡ u8 (raw_fragments (padded_size size)))
    sent-Run ps fragmented =
        let same : fragments-total.0 ≡ ps = cc (sym fragments-total.1 ∙ fragmented) in
        subst
          (λ qs.
            Run type id (u8 (raw_fragments (padded_size size))) 0 qs
            × (join qs ≡ (aes.ctr_xcrypt c buffer).0)
            × (length qs ≡ u8 (raw_fragments (padded_size size))))
          same (fragments-total.2, fragments-total.3, fragments-total.4)

    cipher_size : length (aes.ctr_xcrypt c buffer).0 ≡ padded_size size
    cipher_size = laws.length-ctr_xcrypt c buffer ∙ (padded-IsBytes buffer padding_added).1

    -- What the receiver decrypts is stripped to the message.
    pub stripped_cipher :
        IsPlain message size
        → (strip
              (length (aes.ctr_xcrypt c buffer).0)
              (aes.ctr_xcrypt c (aes.ctr_xcrypt c buffer).0).0
            ≡ some (some (record { bytes = buffer; len = size })))
          × (take size buffer ≡ message)
    stripped_cipher plain =
        let (b, added, stripped, whole) = strip-pad message size len pos (omega arith) plain in
        let same : b ≡ buffer = cc (sym added ∙ padding_added) in
        (
          rw (cipher_size, laws.ctr_xcrypt_twice c buffer (padded-IsBytes buffer padding_added).0)
              (subst
                (λ d. strip (padded_size size) d ≡ some (some (record { bytes = d; len = size })))
                same stripped),
          subst (λ d. take size d ≡ message) same whole,
        )
