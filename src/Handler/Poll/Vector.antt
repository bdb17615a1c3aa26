-- ===== src/Handler/Poll/Vector.antt =====
-- `poll` on a handshake: the vector that the receiver takes over.
use hydro_lo_ra_shield.Base.{
  true, ◌==◌, ℕ, ◌≤◌, ◌≡◌, refl, ap, ◌∙◌, List, [], ◌∷◌, ◌++◌, append-nil, some, arith, length,
  take, drop, drop_beyond, take_all, load_bytes_in, store_bytes_in, length-take,
}
use hydro_lo_ra_shield.Packet.{Packet, IsPacket, content, encryp, type_code}
use hydro_lo_ra_shield.Endian.{load_words, store_words, swap_endianness}
use hydro_lo_ra_shield.Endian.Laws.{
  WholeWords, reverse_words, swap_endianness_bytes, length-reverse_words,
}
use hydro_lo_ra_shield.Aes.{Aes, AesLaws}
use hydro_lo_ra_shield.Handler.{Handler}
use hydro_lo_ra_shield.Padding.{Delivery}
use hydro_lo_ra_shield.Entries.{MessageEntry}
use hydro_lo_ra_shield.Base.Fault.{◌>>=◌}
use hydro_lo_ra_shield.Handler.Sort.Laws.{sort-Rising}
use hydro_lo_ra_shield.Handler.Poll.{
  is_complete, handle_encryp, dispatch, front_type, process, poll_entries, poll,
}
use hydro_lo_ra_shield.Handler.Poll.Laws.{reassemble-join}

-- A handshake in `received`. `receive` does not write the checksum field, so it is not looked at.
pub record IsOpening (p : Packet) : Type 0 where
  pub fits : IsPacket p
  pub type_is : p.type ≡ type_code encryp
  pub total_is : p.total_fragments ≡ 1
  pub index_is : p.fragment_id ≡ 0

poll_entries-single :
    {aes : Aes} (dangling : ℕ → ℕ) (key : MessageEntry) (p : Packet) (h : Handler aes)
    {last : Handler aes} {out : List Delivery}
    → is_complete (p ∷ []) ≡ true
    → process (dangling 0) (p ∷ []) h ≡ some (last, out)
    → poll_entries dangling ((key, p ∷ []) ∷ []) h ≡ some (last, [], out)
unfolding poll_entries
poll_entries-single dangling key p h {out = out} done e =
    rw (done, e, append-nil out, poll_entries) refl

module _ {aes : Aes} (laws : AesLaws aes) (dangling : ℕ) (h : Handler aes) (key iv vector : List ℕ)
    (whole : WholeWords vector) (size : length vector ≡ 16) (iv_size : length h.iv ≡ 16)
    (keyed : h.aes_ctx ≡ aes.init_ctx_iv key iv) where
  abbrev swapped : List ℕ
  swapped = store_words (swap_endianness (load_words (take 16 vector)))

  swapped_lem : swapped ≡ reverse_words vector
  swapped_lem =
      ap (λ v. store_words (swap_endianness (load_words v))) (take_all 16 vector (omega arith))
      ∙ swap_endianness_bytes whole

  swapped_size : length swapped ≡ 16
  swapped_size = ap length swapped_lem ∙ length-reverse_words whole ∙ size

  copied : List ℕ
  copied = take dangling (swapped ++ drop 16 vector)

  -- What the receiver's handler is after the vector has come, with `n` bytes of it in `iv`.
  abbrev pub with_vector : Handler aes
  with_vector = record h {
    iv = take dangling (reverse_words vector) ++ drop dangling h.iv;
    aes_ctx = aes.init_ctx_iv key (reverse_words vector);
  }

  handle_encryp_lem : dangling ≤ 16 → handle_encryp dangling vector h ≡ some (with_vector, [])
  unfolding handle_encryp
  handle_encryp_lem fits =
      rw
        (
          load_bytes_in 0 16 vector (omega arith),
          swapped_lem,
          drop_beyond 16 vector (omega arith),
          append-nil (reverse_words vector),
          load_bytes_in 0 dangling (reverse_words vector)
              (omega (arith, length-reverse_words whole)),
          store_bytes_in (take dangling (reverse_words vector)) h.iv
              (omega (arith, length-take dangling (reverse_words vector))),
          keyed,
          laws.set_iv_init key iv (reverse_words vector),
          taken,
        )
        refl
    where
      taken : length (take dangling (reverse_words vector)) ≡ dangling
      taken = omega (arith, length-take dangling (reverse_words vector), length-reverse_words whole)

  -- A handshake packet that carries the vector.
  pub process-encryp :
      (p : Packet)
      → IsOpening p
      → content p ≡ vector
      → dangling ≤ 16
      → process dangling (p ∷ []) h ≡ some (with_vector, [])
  unfolding process front_type dispatch
  process-encryp p opens carried fits =
      rw
        (
          sort-Rising 0 (p ∷ []) (opens.index_is, tt),
          reassemble-join (p ∷ []) (opens.fits, tt),
          opens.type_is,
          append-nil (content p),
          carried,
        )
        (handle_encryp_lem fits)

module _ {aes : Aes} (laws : AesLaws aes) (dangling : ℕ → ℕ) (h : Handler aes)
    (key iv vector : List ℕ) (whole : WholeWords vector) (size : length vector ≡ 16)
    (iv_size : length h.iv ≡ 16) (keyed : h.aes_ctx ≡ aes.init_ctx_iv key iv) where
  -- The next `poll`, when that packet is the only entry of `received`.
  pub poll-encryp :
      (entry : MessageEntry) (p : Packet)
      → h.received ≡ (entry, p ∷ []) ∷ []
      → IsOpening p
      → content p ≡ vector
      → dangling 0 ≤ 16
      → poll dangling h
        ≡ some (
          record (with_vector laws (dangling 0) h key iv vector whole size iv_size keyed) {
            received = [];
          },
          [],
        )
  unfolding poll is_complete
  poll-encryp entry p only opens carried fits =
      ap (λ m. poll_entries dangling m h >>= λ r. some (record (r.0) { received = r.1 }, r.2)) only
      ∙ rw
          (poll_entries-single dangling entry p h (ap (λ n. n == 1) opens.total_is) (
            process-encryp laws (dangling 0) h key iv vector whole size iv_size keyed p opens
              carried fits))
          refl
