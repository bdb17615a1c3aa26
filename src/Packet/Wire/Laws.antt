-- ===== src/Packet/Wire/Laws.antt =====
-- The wire format: what is written is read back, and which frames make the reader fault.
use hydro_lo_ra_shield.Base.{
  ℕ, suc, ◌+◌, ◌≤◌, ◌<◌, ◌≡◌, refl, ap, ◌∙◌, List, [], ◌∷◌, ◌++◌, append_assoc, none, some, true,
  arith, length, take, drop, get_elem?, get_or, load_bytes, u8, get_elem?-eq-get_or, load_bytes_in,
  load_bytes_out, store_bytes_in, store_bytes_out, length-take, length-append, take-append_length,
  get_elem?-append_right, length-drop,
}
use native.Mathlib.Decide.{dec_le}
use hydro_lo_ra_shield.Packet.{Packet, IsPacket, packet_max_size, content}
use hydro_lo_ra_shield.Packet.Wire.{encode, decode, Frame, frame, has_header}

-- The bytes that a packet within its limits is sent as.
abbrev pub bytes_of : ℕ → Packet → List ℕ
bytes_of gap p =
    0xa5
    ∷ 0x5a
    ∷ p.type
    ∷ p.message_id
    ∷ p.fragment_id
    ∷ p.total_fragments
    ∷ p.lenght
    ∷ (content p ++ gap ∷ u8 p.checksum ∷ [])

module _ (gap : ℕ) {p : Packet} (fits : IsPacket p) where
  pub length-content : length (content p) ≡ p.lenght
  length-content =
      omega (arith, length-take p.lenght p.payload, fits.lenght_fits, fits.payload_size)

  pub encode_fits : encode gap p ≡ some (bytes_of gap p)
  unfolding encode
  encode_fits =
      rw (load_bytes_in 0 p.lenght p.payload (omega (arith, fits.lenght_fits, fits.payload_size)))

  pub length-bytes_of : length (bytes_of gap p) ≡ p.lenght + 9
  length-bytes_of =
      omega (arith, length-append (content p) (gap ∷ u8 p.checksum ∷ []), length-content)

-- The packet as the receiver stores it, with what `malloc` returned beyond its content.
abbrev pub stored : List ℕ → ℕ → Packet → Packet
stored fresh junk p = record p { payload = content p ++ drop p.lenght fresh; checksum = junk }

-- A buffer of seven bytes, `n` bytes of content and the rest.
module _ (a b c d e f n : ℕ) (used rest : List ℕ) (len : length used ≡ n) where
  abbrev framed : List ℕ
  framed = a ∷ b ∷ c ∷ d ∷ e ∷ f ∷ n ∷ (used ++ rest)

  load_used : load_bytes 7 n framed ≡ some used
  load_used =
      load_bytes_in 7 n framed (omega (arith, length-append used rest))
      ∙ ap some (take-append_length n used rest len)

  get_after : get_elem? framed (n + 8) ≡ get_elem? rest 1
  get_after = ap (get_elem? framed) shifted ∙ get_elem?-append_right 1 used rest
    where
      shifted : n + 8 ≡ suc (suc (suc (suc (suc (suc (suc (length used + 1)))))))
      shifted = omega arith

module _ (gap : ℕ) {p : Packet} (fits : IsPacket p) (rest : List ℕ) where
  bytes_of-append :
      bytes_of gap p ++ rest
      ≡ framed 0xa5 0x5a p.type p.message_id p.fragment_id p.total_fragments p.lenght
          (content p)
          (gap ∷ u8 p.checksum ∷ rest)
          (length-content gap fits)
  bytes_of-append =
      ap
        (λ t.
          0xa5 ∷ 0x5a ∷ p.type ∷ p.message_id ∷ p.fragment_id ∷ p.total_fragments ∷ p.lenght ∷ t)
        (append_assoc (content p) (gap ∷ u8 p.checksum ∷ []) rest)

  pub decode-bytes_of :
      (fresh : List ℕ) (junk : ℕ)
      → length fresh ≡ packet_max_size
      → decode fresh junk (bytes_of gap p ++ rest)
        ≡ some (frame (stored fresh junk p) (u8 p.checksum))
  unfolding decode has_header
  decode-bytes_of fresh junk room =
      rw
        (
          bytes_of-append,
          load_used 0xa5 0x5a p.type p.message_id p.fragment_id p.total_fragments p.lenght
              (content p) (gap ∷ u8 p.checksum ∷ rest) (length-content gap fits),
          store_bytes_in (content p) fresh
              (omega (arith, length-content gap fits, fits.lenght_fits, room)),
          get_after 0xa5 0x5a p.type p.message_id p.fragment_id p.total_fragments p.lenght
              (content p) (gap ∷ u8 p.checksum ∷ rest) (length-content gap fits),
          length-content gap fits,
        )
        refl

  -- A packet within its limits is written to a frame, and reading the frame gives the packet back:
  -- every field and the content, with what `malloc` returned behind it and in the checksum field;
  -- and its checksum, cut to a byte. What follows the frame in the buffer makes no difference.
  pub decode-encode :
      (fresh : List ℕ) (junk : ℕ)
      → length fresh ≡ packet_max_size
      → (bytes : List ℕ) × (encode gap p ≡ some bytes)
        × (decode fresh junk (bytes ++ rest) ≡ some (frame (stored fresh junk p) (u8 p.checksum)))
  decode-encode fresh junk room =
      (bytes_of gap p, encode_fits gap fits, decode-bytes_of fresh junk room)

-- What is read out of a buffer of 128 bytes, from its bytes alone.
abbrev pub frame_of : List ℕ → ℕ → List ℕ → Frame
frame_of fresh junk buffer =
    let lenght = get_or buffer 6 0 in
    frame
      (record {
        type = get_or buffer 2 0;
        message_id = get_or buffer 3 0;
        fragment_id = get_or buffer 4 0;
        total_fragments = get_or buffer 5 0;
        lenght = lenght;
        payload = take lenght (drop 7 buffer) ++ drop lenght fresh;
        checksum = junk;
      })
      (get_or buffer (lenght + 8) 0)

module _ (fresh : List ℕ) (junk : ℕ) (buffer : List ℕ) (room : length fresh ≡ packet_max_size)
    (size : length buffer ≡ packet_max_size + 9) (ours : has_header buffer ≡ true) where
  byte_at : (i : ℕ) → i < 128 → get_elem? buffer i ≡ some (get_or buffer i 0)
  byte_at i h = get_elem?-eq-get_or buffer i 0 (omega arith)

  length-used :
      get_or buffer 6 0 ≤ packet_max_size
      → length (take (get_or buffer 6 0) (drop 7 buffer)) ≡ get_or buffer 6 0
  length-used h =
      omega (arith, length-take (get_or buffer 6 0) (drop 7 buffer), length-drop 7 buffer)

  -- A frame whose length byte is at most 119 is read without leaving the buffer or the payload.
  pub decode_fits :
      get_or buffer 6 0 ≤ packet_max_size
      → decode fresh junk buffer ≡ some (frame_of fresh junk buffer)
  unfolding decode
  decode_fits h =
      rw
        (
          ours,
          decode,
          byte_at 2 (omega arith),
          byte_at 3 (omega arith),
          byte_at 4 (omega arith),
          byte_at 5 (omega arith),
          byte_at 6 (omega arith),
          load_bytes_in 7 (get_or buffer 6 0) buffer (omega arith),
          store_bytes_in (take (get_or buffer 6 0) (drop 7 buffer)) fresh
              (omega (arith, length-used h)),
          byte_at (get_or buffer 6 0 + 8) (omega arith),
          length-used h,
        )
        refl

  short :
      packet_max_size < get_or buffer 6 0
      → get_or buffer 6 0 ≤ 121
      → length (take (get_or buffer 6 0) (drop 7 buffer)) ≡ get_or buffer 6 0
  short h k = omega (arith, length-take (get_or buffer 6 0) (drop 7 buffer), length-drop 7 buffer)

  -- A larger length byte makes `memcpy` leave the payload.
  pub decode_overrun : packet_max_size < get_or buffer 6 0 → decode fresh junk buffer ≡ none
  unfolding decode
  decode_overrun h =
      rw
        (
          ours,
          decode,
          byte_at 2 (omega arith),
          byte_at 3 (omega arith),
          byte_at 4 (omega arith),
          byte_at 5 (omega arith),
          byte_at 6 (omega arith),
        )
        (elim (dec_le (get_or buffer 6 0) 121) [
          | yes k ↦
              rw
                (
                  load_bytes_in 7 (get_or buffer 6 0) buffer (omega arith),
                  store_bytes_out (take (get_or buffer 6 0) (drop 7 buffer)) fresh
                      (omega (arith, short h k)),
                )
                refl
          | no k ↦ rw (load_bytes_out 7 (get_or buffer 6 0) buffer (omega arith)) refl
        ])
