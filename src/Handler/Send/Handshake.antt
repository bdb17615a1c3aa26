-- ===== src/Handler/Send/Handshake.antt =====
-- The handshake of `send`: the vector that is drawn, sent and used.
use hydro_lo_ra_shield.Base.{
  ℕ, zero, suc, ◌+◌, ◌≤◌, ◌<◌, ◌≡◌, refl, sym, ap, ◌∙◌, List, [], ◌∷◌, ◌++◌, some, arith,
  bit_and_255, length, drop, IsByte, IsBytes, length-append, length-drop, All-append, All-drop,
  take_all, take-append_length, load_bytes_in, store_bytes_in,
}
use hydro_lo_ra_shield.Packet.{Packet, content, encryp, type_code, packet_max_size}
use hydro_lo_ra_shield.Packet.Checksum.{compute_checksum, compute_checksum-record}
use hydro_lo_ra_shield.Packet.Wire.Laws.{bytes_of}
use hydro_lo_ra_shield.Endian.{u32_to_bytes}
use hydro_lo_ra_shield.Endian.Laws.{
  WholeWords, WholeWords-four, reverse_words, u32_to_bytes-load_words, reverse_words-WholeWords,
  length-reverse_words, WholeWords-IsBytes,
}
use hydro_lo_ra_shield.Aes.{Aes}
use hydro_lo_ra_shield.Link.{Link, LinkLaws}
use hydro_lo_ra_shield.Handler.{Handler, aes_key}
use hydro_lo_ra_shield.Handler.Send.{draw, handshake_packet, encryption_handshake}
use hydro_lo_ra_shield.Handler.Send.Fragments.{IsFragment}
use hydro_lo_ra_shield.Handler.Send.Transmit.{send_pkt-air}

pub length-draw : (n : ℕ) (rands : ℕ → ℕ) → length (draw n rands) ≡ n
length-draw zero rands = refl
length-draw (suc n) rands = ap suc (length-draw n (λ i. rands (i + 1)))

draw-IsBytes : (n : ℕ) (rands : ℕ → ℕ) → IsBytes (draw n rands)
draw-IsBytes zero rands = tt
draw-IsBytes (suc n) rands =
    (omega (arith, bit_and_255 (rands 0)), draw-IsBytes n (λ i. rands (i + 1)))

pub draw-WholeWords : (rands : ℕ → ℕ) → WholeWords (draw 16 rands)
draw-WholeWords rands =
    WholeWords-four 4 (draw 16 rands) (draw-IsBytes 16 rands) (length-draw 16 rands)

-- The vector as it is sent and used: each word of the drawn bytes reversed.
abbrev pub sent_vector : (ℕ → ℕ) → List ℕ
sent_vector rands = reverse_words (draw 16 rands)

-- The context after a handshake.
abbrev pub shaken_ctx : (aes : Aes) → (ℕ → ℕ) → aes.Ctx
shaken_ctx aes rands = aes.init_ctx_iv (u32_to_bytes aes_key) (sent_vector rands)

-- The handshake packet is one fragment that carries the vector.
pub handshake_packet_lem :
    (msg_id : ℕ) (iv_bytes stale : List ℕ)
    → msg_id < 256
    → length iv_bytes ≡ 16
    → IsBytes iv_bytes
    → length stale ≡ packet_max_size
    → IsBytes stale
    → (p : Packet) × (handshake_packet msg_id iv_bytes stale ≡ some p)
      × IsFragment (type_code encryp) msg_id 1 0 p
      × (content p ≡ iv_bytes)
unfolding handshake_packet
handshake_packet_lem msg_id iv_bytes stale id_fits len bytes room stale_bytes = (
  record bare { checksum = compute_checksum bare 16 },
  rw
      (
        load_bytes_in 0 16 iv_bytes (omega arith),
        take_all 16 iv_bytes (omega arith),
        store_bytes_in iv_bytes stale (omega arith),
      )
      refl,
  record {
    fits = record {
      type_fits = omega arith;
      message_fits = id_fits;
      fragment_fits = omega arith;
      total_fits = omega arith;
      lenght_fits = omega arith;
      payload_size = omega (
        arith,
        length-append iv_bytes (drop (length iv_bytes) stale),
        length-drop (length iv_bytes) stale,
      );
      payload_bytes =
          All-append IsByte iv_bytes _ bytes (All-drop IsByte (length iv_bytes) stale stale_bytes);
    };
    type_is = refl;
    id_is = refl;
    total_is = refl;
    index_is = refl;
    checksum_is = sym (compute_checksum-record bare (compute_checksum bare 16) 16);
  },
  take-append_length 16 iv_bytes (drop (length iv_bytes) stale) len,
)
  where
    bare : Packet
    bare = record {
      type = type_code encryp;
      message_id = msg_id;
      fragment_id = 0;
      total_fragments = 1;
      lenght = 16;
      payload = iv_bytes ++ drop (length iv_bytes) stale;
      checksum = 0;
    }

-- With fuel for the radio's patience the handshake ends. It draws 16 bytes for the vector, sends
-- one packet of type ENCRYP with each word of them reversed, and starts the AES context with the
-- key's words in big-endian order and that same reversed vector; no map of packets changes.
pub encryption_handshake-air :
    {aes : Aes} (link : Link) (laws : LinkLaws link) (msg_id : ℕ) (rands : ℕ → ℕ) (stale : List ℕ)
    (gap fuel : ℕ) (h : Handler aes) (radio : link.Radio)
    → msg_id < 256
    → length stale ≡ packet_max_size
    → IsBytes stale
    → laws.patience ≤ fuel
    → (p : Packet) × (after : link.Radio) × (encryption_handshake link msg_id rands stale gap fuel h
          radio
        ≡ some (record h { iv = draw 16 rands; aes_ctx = shaken_ctx aes rands }, after))
      × (laws.air after ≡ laws.air radio ++ bytes_of gap p ∷ [])
      × IsFragment (type_code encryp) msg_id 1 0 p
      × (content p ≡ sent_vector rands)
unfolding encryption_handshake
encryption_handshake-air link laws msg_id rands stale gap fuel h radio id_fits room stale_bytes
      enough =
    let words = draw-WholeWords rands in
    let back = reverse_words-WholeWords words in
    let (p, made, is_fragment, carried) =
      handshake_packet_lem msg_id (sent_vector rands) stale id_fits
        (length-reverse_words words ∙ length-draw 16 rands) (WholeWords-IsBytes back) room
        stale_bytes in
    let (after, ends, aired) = send_pkt-air link laws fuel gap p radio enough is_fragment.fits in
    (
      p,
      after,
      rw (u32_to_bytes-load_words words) (rw made (rw ends refl)),
      aired,
      is_fragment,
      carried,
    )
