-- ===== src/Handler/Receive/Laws.antt =====
-- What `receive` makes of the frames that reach it.
use hydro_lo_ra_shield.Base.{
  ℕ, ◌≡◌, refl, sym, ◌∙◌, true, false, List, ◌++◌, some, arith, length, drop, u8,
  take-append_length,
}
use hydro_lo_ra_shield.Packet.{Packet, IsPacket, content, packet_max_size}
use hydro_lo_ra_shield.Packet.Checksum.{
  compute_checksum, compute_checksum-lt, validate_checksum, validate_checksum_iff,
  validate_checksum_content,
}
use hydro_lo_ra_shield.Packet.Wire.{frame}
use hydro_lo_ra_shield.Packet.Wire.Laws.{bytes_of, stored, length-content, decode-bytes_of}
use hydro_lo_ra_shield.Entries.{push_back}
use hydro_lo_ra_shield.Aes.{Aes}
use hydro_lo_ra_shield.Handler.{Handler}
use hydro_lo_ra_shield.Handler.Receive.{incoming, store_frame, accept}

-- The checksum that the sender computes is the one that the receiver checks.
pub stored-accepted :
    (gap : ℕ) {p : Packet}
    → IsPacket p
    → (fresh : List ℕ) (junk : ℕ) → p.checksum ≡ compute_checksum p p.lenght
    → validate_checksum (stored fresh junk p) (u8 p.checksum) ≡ true
stored-accepted gap {p} fits fresh junk sum =
    validate_checksum_content (stored fresh junk p) p (u8 p.checksum) refl
      (take-append_length p.lenght (content p) (drop p.lenght fresh) (length-content gap fits))
    ∙ (validate_checksum_iff p (u8 p.checksum)).1 (sym sum ∙ sym cut)
  where
    cut : u8 p.checksum ≡ p.checksum
    cut = omega (arith, compute_checksum-lt p p.lenght)

module _ {aes : Aes} (h : Handler aes) (gap : ℕ) {p : Packet} (fits : IsPacket p)
    (rest fresh : List ℕ) (junk : ℕ) (room : length fresh ≡ packet_max_size) where
  accept-decoded :
      accept fresh junk (bytes_of gap p ++ rest) h
      ≡ some (store_frame (frame (stored fresh junk p) (u8 p.checksum)) h)
  unfolding accept
  accept-decoded = rw (decode-bytes_of gap fits rest fresh junk room) refl

  -- A frame that `send_pkt` made is stored, under its message's key and behind what is there.
  pub accept-bytes_of :
      p.checksum ≡ compute_checksum p p.lenght
      → accept fresh junk (bytes_of gap p ++ rest) h
        ≡ some (record h {
          received = push_back (incoming p.message_id) (stored fresh junk p) h.received;
        })
  unfolding store_frame
  accept-bytes_of sum = accept-decoded ∙ rw (stored-accepted gap fits fresh junk sum) refl

  -- A frame whose checksum byte does not fit its content is dropped.
  pub accept-mismatch :
      validate_checksum p (u8 p.checksum) ≡ false
      → accept fresh junk (bytes_of gap p ++ rest) h ≡ some h
  unfolding store_frame
  accept-mismatch bad =
      accept-decoded
      ∙ rw
          (validate_checksum_content (stored fresh junk p) p (u8 p.checksum) refl (
              take-append_length p.lenght (content p) (drop p.lenght fresh)
                (length-content gap fits))
            ∙ bad)
          refl
