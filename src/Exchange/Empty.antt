-- ===== src/Exchange/Empty.antt =====
-- A frame with a message of no bytes.
use hydro_lo_ra_shield.Base.{
  ℕ, ◌≡◌, refl, ap, ◌∙◌, true, List, [], ◌∷◌, ◌++◌, none, some, arith, length, load_bytes_in,
}
use hydro_lo_ra_shield.Packet.{Packet, IsPacket, msg, type_code, packet_max_size}
use hydro_lo_ra_shield.Packet.Checksum.{compute_checksum}
use hydro_lo_ra_shield.Packet.Wire.Laws.{bytes_of, stored}
use hydro_lo_ra_shield.Entries.{push_back}
use hydro_lo_ra_shield.Padding.{strip}
use hydro_lo_ra_shield.Aes.{Aes, AesLaws}
use hydro_lo_ra_shield.Handler.{Handler}
use hydro_lo_ra_shield.Handler.Receive.{incoming, accept}
use hydro_lo_ra_shield.Handler.Receive.Laws.{accept-bytes_of}
use hydro_lo_ra_shield.Handler.Sort.{insert, sort}
use hydro_lo_ra_shield.Handler.Poll.{
  is_complete, handle_msg, dispatch, front_type, total_length, reassemble, process, poll,
}
use hydro_lo_ra_shield.Handler.Poll.Order.{with_received, poll-process}

strip_empty : (plain : List ℕ) → length plain ≡ 0 → strip 0 plain ≡ none
unfolding strip
strip_empty [] e = refl
strip_empty (b ∷ bs) e = absurd (omega arith)

module _ {aes : Aes} (laws : AesLaws aes) (dangling : ℕ → ℕ) (h : Handler aes)
    (callback : h.msg_callback ≡ true) where
  process_empty :
      (p : Packet) → p.type ≡ type_code msg → p.lenght ≡ 0 → process (dangling 0) (p ∷ []) h ≡ none
  unfolding process sort insert reassemble total_length front_type dispatch handle_msg
  process_empty p typed empty =
      rw (empty, load_bytes_in 0 0 p.payload (omega arith), typed, callback)
        (rw (strip_empty (aes.ctr_xcrypt h.aes_ctx []).0 (laws.length-ctr_xcrypt h.aes_ctx []))
          refl)

  -- A valid frame of type MSG that carries no bytes and says that it is the only fragment: an idle
  -- receiver with a callback stores it, and the next `poll` reads outside its buffer.
  pub empty_message-poll :
      (p : Packet) (gap : ℕ) (rest fresh : List ℕ) (junk : ℕ)
      → IsPacket p
      → length fresh ≡ packet_max_size
      → p.checksum ≡ compute_checksum p p.lenght
      → p.type ≡ type_code msg
      → p.total_fragments ≡ 1
      → p.lenght ≡ 0
      → h.received ≡ []
      → (kept : Handler aes) × (accept fresh junk (bytes_of gap p ++ rest) h ≡ some kept)
        × (poll dangling kept ≡ none)
  unfolding push_back is_complete
  empty_message-poll p gap rest fresh junk fits room sum typed one empty idle =
      let q = stored fresh junk p in
      (
        record h { received = (incoming p.message_id, q ∷ []) ∷ [] },
        accept-bytes_of h gap fits rest fresh junk room sum
            ∙ ap (λ m. some (record h { received = push_back (incoming p.message_id) q m })) idle,
        poll-process dangling (incoming p.message_id) (q ∷ []) h (rw one refl)
            ∙ ap (with_received []) (process_empty q typed empty),
      )
