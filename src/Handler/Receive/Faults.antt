-- ===== src/Handler/Receive/Faults.antt =====
-- The frames that `receive` drops, and those on which it leaves its arrays.
use hydro_lo_ra_shield.Base.{
  some-ne-none, ℕ, ◌+◌, ◌≤◌, ◌<◌, ◌≡◌, ◌≢◌, ◌↔◌, ◌⊎◌, refl, sym, ◌∙◌, true, List, ◌++◌, none, some,
  arith, inl, inr, length, set, get_or, u8, IsByte, length-set, All-set, All-get_or, ne→==,
}
use native.Mathlib.Decide.{dec_le}
use hydro_lo_ra_shield.Base.Fault.{◌>>=◌}
use hydro_lo_ra_shield.Packet.{Packet, IsPacket, packet_max_size}
use hydro_lo_ra_shield.Packet.Checksum.{
  compute_checksum, compute_checksum-lt, validate_checksum_iff, validate_checksum-set,
}
use hydro_lo_ra_shield.Packet.Wire.{has_header}
use hydro_lo_ra_shield.Packet.Wire.Laws.{bytes_of, decode_fits, decode_overrun, frame_of}
use hydro_lo_ra_shield.Aes.{Aes}
use hydro_lo_ra_shield.Link.{Link, Reception, lora_ok}
use hydro_lo_ra_shield.Handler.{Handler}
use hydro_lo_ra_shield.Handler.Receive.{store_frame, accept, receive}
use hydro_lo_ra_shield.Handler.Receive.Laws.{accept-mismatch}

-- A packet with one byte of its payload replaced.
abbrev pub corrupt : ℕ → ℕ → Packet → Packet
corrupt i v p = record p { payload = set p.payload i v }

corrupt-IsPacket : {p : Packet} (i v : ℕ) → v < 256 → IsPacket p → IsPacket (corrupt i v p)
corrupt-IsPacket {p} i v small fits = record {
  type_fits = fits.type_fits;
  message_fits = fits.message_fits;
  fragment_fits = fits.fragment_fits;
  total_fits = fits.total_fits;
  lenght_fits = fits.lenght_fits;
  payload_size = length-set p.payload i v ∙ fits.payload_size;
  payload_bytes = All-set IsByte p.payload i v small fits.payload_bytes;
}

-- If one byte of the content of a frame that `send_pkt` made is changed to another byte on the
-- way, `receive` drops the frame: the handler is as it was.
pub accept-corrupt :
    {aes : Aes} (h : Handler aes) (gap : ℕ) (p : Packet) (i v : ℕ) (rest fresh : List ℕ) (junk : ℕ)
    → IsPacket p
    → p.checksum ≡ compute_checksum p p.lenght
    → length fresh ≡ packet_max_size
    → i < p.lenght
    → v < 256
    → v ≢ get_or p.payload i 0
    → accept fresh junk (bytes_of gap (corrupt i v p) ++ rest) h ≡ some h
accept-corrupt h gap p i v rest fresh junk fits sum room used small other =
    accept-mismatch h gap (corrupt-IsPacket i v small fits) rest fresh junk room (
      validate_checksum-set p (u8 p.checksum) i v used
        (omega (arith, fits.lenght_fits, fits.payload_size))
        (All-get_or IsByte p.payload i 0 (omega arith) fits.payload_bytes) small other
        ((validate_checksum_iff p (u8 p.checksum)).1 (sym sum ∙ sym cut)))
  where
    cut : u8 p.checksum ≡ p.checksum
    cut = omega (arith, compute_checksum-lt p p.lenght)

module _ {aes : Aes} (link : Link) (rx fresh : List ℕ) (junk : ℕ) (h : Handler aes)
    (radio after : link.Radio) (got : Reception)
    (arrived : link.receive rx (packet_max_size + 9) 500 radio ≡ some (got, after)) where
  -- Without a packet, or with an error of the radio, the handler is as it was.
  receive_refused :
      (got.received ≡ 0) ⊎ (got.error ≢ lora_ok)
      → receive link rx fresh junk h radio ≡ some (h, after)
  unfolding receive
  receive_refused (inl e) = rw (arrived, e) refl
  receive_refused (inr e) = rw arrived (ground (arith, ne→== got.error lora_ok e))

  module _ (some_bytes : got.received ≢ 0) (no_error : got.error ≡ lora_ok) where
    receive_accepts :
        receive link rx fresh junk h radio
        ≡ (accept fresh junk got.buffer h >>= λ accepted. some (accepted, after))
    unfolding receive accept
    receive_accepts = rw (arrived, no_error, ne→== got.received 0 some_bytes) refl

accept_fits :
    {aes : Aes} (h : Handler aes) (fresh : List ℕ) (junk : ℕ) (buffer : List ℕ)
    → length fresh ≡ packet_max_size
    → length buffer ≡ packet_max_size + 9
    → has_header buffer ≡ true
    → get_or buffer 6 0 ≤ packet_max_size
    → accept fresh junk buffer h ≡ some (store_frame (frame_of fresh junk buffer) h)
unfolding accept
accept_fits h fresh junk buffer room size ours small =
    rw (decode_fits fresh junk buffer room size ours small) refl

accept_overrun :
    {aes : Aes} (h : Handler aes) (fresh : List ℕ) (junk : ℕ) (buffer : List ℕ)
    → length fresh ≡ packet_max_size
    → length buffer ≡ packet_max_size + 9
    → has_header buffer ≡ true
    → packet_max_size < get_or buffer 6 0
    → accept fresh junk buffer h ≡ none
unfolding accept
accept_overrun h fresh junk buffer room size ours large =
    rw (decode_overrun fresh junk buffer room size ours large) refl

-- When the radio hands over a frame without an error and the frame starts with our header,
-- `receive` leaves its arrays exactly when the frame's length byte is above 119: `receive` does
-- not check that byte.
pub receive_fault_iff :
    {aes : Aes} (link : Link) (rx fresh : List ℕ) (junk : ℕ) (h : Handler aes)
    (radio after : link.Radio) (got : Reception)
    → link.receive rx (packet_max_size + 9) 500 radio ≡ some (got, after)
    → got.received ≢ 0
    → got.error ≡ lora_ok
    → length fresh ≡ packet_max_size
    → length got.buffer ≡ packet_max_size + 9
    → has_header got.buffer ≡ true
    → (receive link rx fresh junk h radio ≡ none) ↔ (packet_max_size < get_or got.buffer 6 0)
receive_fault_iff link rx fresh junk h radio after got arrived some_bytes no_error room size ours =
    elim (dec_le (get_or got.buffer 6 0) packet_max_size) [
      | yes small ↦ (
        (λ fault. absurd (some-ne-none (sym (accepted small) ∙ fault))),
        (λ large. absurd (omega arith)),
      )
      | no large ↦ ((λ _. omega arith), (λ _. overrun (omega arith)))
    ]
  where
    enters :
        receive link rx fresh junk h radio
        ≡ (accept fresh junk got.buffer h >>= λ accepted. some (accepted, after))
    enters = receive_accepts link rx fresh junk h radio after got arrived some_bytes no_error

    accepted :
        get_or got.buffer 6 0 ≤ packet_max_size
        → receive link rx fresh junk h radio
          ≡ some (store_frame (frame_of fresh junk got.buffer) h, after)
    accepted small = enters ∙ rw (accept_fits h fresh junk got.buffer room size ours small) refl

    overrun : packet_max_size < get_or got.buffer 6 0 → receive link rx fresh junk h radio ≡ none
    overrun large = enters ∙ rw (accept_overrun h fresh junk got.buffer room size ours large) refl
