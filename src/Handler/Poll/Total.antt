-- ===== src/Handler/Poll/Total.antt =====
-- `poll` of complete messages that are not too short returns.
use hydro_lo_ra_shield.Base.{
  ℕ, zero, suc, ◌*◌, ◌^◌, ◌≤◌, ◌<◌, ◌≡◌, refl, sym, ap, ◌∙◌, List, [], ◌∷◌, ◌++◌, Option, none,
  some, arith, All, Bool-cases, inl, inr, length, take, drop, load_bytes_in, store_bytes_in,
  length-append, length-take,
}
use hydro_lo_ra_shield.Base.Fault.{Succeeds, Succeeds-then}
use hydro_lo_ra_shield.Packet.{Packet, PacketTypes, IsPacket, msg, encryp, ack, nack, flags, dict}
use hydro_lo_ra_shield.Endian.{load_words, store_words, swap_endianness}
use hydro_lo_ra_shield.Padding.{Delivery, strip}
use hydro_lo_ra_shield.Padding.Delivered.{Fits, FitsIfAny, strip-FitsIfAny}
use hydro_lo_ra_shield.Handler.Sort.Joined.{sort-All, length-join-sort}
use hydro_lo_ra_shield.Aes.{Aes, AesLaws}
use hydro_lo_ra_shield.Handler.{Handler}
use hydro_lo_ra_shield.Handler.Send.Fragments.{join}
use hydro_lo_ra_shield.Handler.Sort.{sort}
use hydro_lo_ra_shield.Handler.Poll.{
  handle_msg, handle_encryp, dispatch, front_type, total_length, process,
}
use hydro_lo_ra_shield.Handler.Poll.Laws.{reassemble-join, total_length-join}

length-load_words : (n : ℕ) (bs : List ℕ) → length bs ≡ n * 4 → length (load_words bs) ≡ n
unfolding load_words
length-load_words zero [] e = refl
length-load_words zero (a ∷ bs) e = absurd (omega arith)
length-load_words (suc n) [] e = absurd (omega arith)
length-load_words (suc n) (a ∷ []) e = absurd (omega arith)
length-load_words (suc n) (a ∷ b ∷ []) e = absurd (omega arith)
length-load_words (suc n) (a ∷ b ∷ c ∷ []) e = absurd (omega arith)
length-load_words (suc n) (a ∷ b ∷ c ∷ d ∷ bs) e = ap suc (length-load_words n bs (omega arith))

length-store_words : (ws : List ℕ) → length (store_words (swap_endianness ws)) ≡ length ws * 4
unfolding store_words swap_endianness
length-store_words [] = refl
length-store_words (w ∷ ws) = omega (arith, length-store_words ws)

-- A result with what it delivers.
abbrev pub Delivers : {aes : Aes} → Handler aes × List Delivery → Type 0
Delivers r = All Fits r.1

module _ {aes : Aes} (laws : AesLaws aes) (dangling : ℕ) (reused : dangling ≤ 16) where
  handle_msg-Delivers :
      (total : ℕ) (reassembled : List ℕ) (h : Handler aes)
      → length reassembled ≡ total
      → 16 ≤ total
      → total < 2 ^ 32
      → Succeeds Delivers (handle_msg total reassembled h)
  unfolding handle_msg
  handle_msg-Delivers total reassembled h len long bound = elim (Bool-cases h.msg_callback) [
    | inr silent ↦ rw (silent, Succeeds, handle_msg) tt
    | inl callback ↦
        rw (callback, Succeeds, handle_msg)
          (Succeeds-then FitsIfAny Delivers (strip total (aes.ctr_xcrypt h.aes_ctx reassembled).0) _
            (strip-FitsIfAny total (aes.ctr_xcrypt h.aes_ctx reassembled).0
              (laws.length-ctr_xcrypt h.aes_ctx reassembled ∙ len) long bound)
            (λ d e fits. delivered d fits))
  ]
    where
      delivered :
          (d : Option Delivery) → FitsIfAny d → All Fits (elim d [ none ↦ [] | some x ↦ x ∷ [] ])
      delivered none fits = tt
      delivered (some x) fits = (fits, tt)

  handle_encryp-Delivers :
      (reassembled : List ℕ) (h : Handler aes)
      → length h.iv ≡ 16
      → 16 ≤ length reassembled
      → Succeeds Delivers (handle_encryp dangling reassembled h)
  unfolding handle_encryp
  handle_encryp-Delivers reassembled h size long =
      let iv_vector = store_words (swap_endianness (load_words (take 16 reassembled))) in
      let taken : length (take 16 reassembled) ≡ 16 = omega (arith, length-take 16 reassembled) in
      let whole : length iv_vector ≡ 16 = omega (
        arith,
        length-store_words (load_words (take 16 reassembled)),
        length-load_words 4 (take 16 reassembled) taken,
      ) in
      let copied = take dangling (iv_vector ++ drop 16 reassembled) in
      let inside : dangling ≤ length (iv_vector ++ drop 16 reassembled) =
        omega (arith, length-append iv_vector (drop 16 reassembled), whole) in
      rw
        (
          load_bytes_in 0 16 reassembled (omega arith),
          load_bytes_in 0 dangling (iv_vector ++ drop 16 reassembled) (omega (arith, inside)),
          store_bytes_in copied h.iv
              (omega (arith, length-take dangling (iv_vector ++ drop 16 reassembled))),
          Succeeds,
        )
        tt

  dispatch-Delivers :
      (t : Option PacketTypes) (total : ℕ) (reassembled : List ℕ) (h : Handler aes)
      → length h.iv ≡ 16
      → length reassembled ≡ total
      → 16 ≤ total
      → total < 2 ^ 32
      → Succeeds Delivers (dispatch t dangling total reassembled h)
  unfolding dispatch
  dispatch-Delivers none total reassembled h size len long bound = tt
  dispatch-Delivers (some msg) total reassembled h size len long bound =
      handle_msg-Delivers total reassembled h len long bound
  dispatch-Delivers (some encryp) total reassembled h size len long bound =
      handle_encryp-Delivers reassembled h size (omega arith)
  dispatch-Delivers (some ack) total reassembled h size len long bound = tt
  dispatch-Delivers (some nack) total reassembled h size len long bound = tt
  dispatch-Delivers (some flags) total reassembled h size len long bound = tt
  dispatch-Delivers (some dict) total reassembled h size len long bound = tt

  pub process-Delivers :
      (ps : List Packet) (h : Handler aes)
      → length h.iv ≡ 16
      → All IsPacket ps
      → 16 ≤ length (join ps)
      → length (join ps) < 2 ^ 32
      → Succeeds Delivers (process dangling ps h)
  unfolding process
  process-Delivers ps h size fits long bound =
      let sorted_fits = sort-All IsPacket ps fits in
      let same = length-join-sort ps in
      let summed : total_length 0 (sort ps) ≡ length (join (sort ps)) =
        total_length-join 0 (sort ps) sorted_fits (omega (arith, same)) ∙ omega arith in
      rw (reassemble-join (sort ps) sorted_fits, Succeeds, process)
        (dispatch-Delivers (front_type (sort ps)) (total_length 0 (sort ps)) (join (sort ps)) h size
          (sym summed) (omega (arith, summed, same)) (omega (arith, summed, same)))
