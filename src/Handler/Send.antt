-- ===== src/Handler/Send.antt =====
-- lib/packethandler.cpp: `send_pkt`, `encryption_handshake` and `send`.
-- The arguments that the source does not name: `rands`, what each call of `rand()` returns, in
-- turn; `now`, what `time(NULL)` returns; `stale`, the payload of each packet that is made before
-- it is written; `gaps`, the byte that `send_pkt` leaves unwritten in each frame; `fuel`, a bound
-- on the attempts for each frame.
pub mod Fragments
pub mod Transmit
pub mod Handshake
pub mod Steps
use hydro_lo_ra_shield.Base.{
  ℕ, zero, suc, ◌+◌, ◌-◌, ◌/◌, Bool, true, false, List, [], ◌∷◌, map, Option, none, some, ltb, ◌==◌,
  if◌then◌else◌, bit_and, load_bytes, store_bytes, u8, u32,
}
use hydro_lo_ra_shield.Base.Fault.{◌>>=◌}
use hydro_lo_ra_shield.Packet.{Packet, PacketTypes, encryp, type_code, packet_max_size}
use hydro_lo_ra_shield.Packet.Checksum.{compute_checksum}
use hydro_lo_ra_shield.Packet.Wire.{encode}
use hydro_lo_ra_shield.Endian.{load_words, u32_to_bytes}
use hydro_lo_ra_shield.Entries.{MessageEntry, Messages, push_all, slot, touch}
use hydro_lo_ra_shield.Padding.{pad, padded_size}
use hydro_lo_ra_shield.Aes.{Aes}
use hydro_lo_ra_shield.Link.{Link}
use hydro_lo_ra_shield.Handler.{Handler, aes_key}

module _ (link : Link) where
  -- The loop that repeats `lora->send` until it succeeds, with a wait after each attempt.
  unfoldable pub send_until : ℕ → List ℕ → link.Radio → Option link.Radio
  send_until zero buffer radio = none
  send_until (suc fuel) buffer radio =
      let attempt = link.send buffer radio in
      let waited = link.sleep 50 attempt.1 in
      elim attempt.0 [ true ↦ some waited | false ↦ send_until fuel buffer waited ]

  unfoldable pub send_pkt : ℕ → ℕ → Packet → link.Radio → Option link.Radio
  send_pkt fuel gap pkt radio = do
    buffer ← encode gap pkt
    sent ← send_until fuel buffer radio
    some (link.sleep 50 sent)

  -- The loop over `messages[entry]` that transmits each fragment.
  unfoldable pub transmit : ℕ → (ℕ → ℕ) → List Packet → link.Radio → Option link.Radio
  transmit fuel gaps [] radio = some radio
  transmit fuel gaps (pkt ∷ pkts) radio = do
    sent ← send_pkt fuel (gaps 0) pkt radio
    transmit fuel (λ i. gaps (i + 1)) pkts sent

-- The vector that the handshake draws.
abbrev pub draw : ℕ → (ℕ → ℕ) → List ℕ
draw zero rands = []
draw (suc n) rands = bit_and (rands 0) 0xff ∷ draw n (λ i. rands (i + 1))

-- `handshakePkt`.
unfoldable pub handshake_packet : ℕ → List ℕ → List ℕ → Option Packet
handshake_packet msg_id iv_bytes stale = do
  used ← load_bytes 0 16 iv_bytes
  payload ← store_bytes used stale
  let pkt : Packet = record {
    type = type_code encryp;
    message_id = msg_id;
    fragment_id = 0;
    total_fragments = 1;
    lenght = 16;
    payload = payload;
    checksum = 0;
  }
  some (record pkt { checksum = compute_checksum pkt 16 })

module _ (message_type message_id total_fragments : ℕ) (padded : List ℕ) where
  -- One round of the loop in `send`: the packet of `packet_len` bytes at `offset`.
  unfoldable pub fragment : ℕ → ℕ → ℕ → List ℕ → Option Packet
  fragment packet_len offset frag_idx stale = do
    used ← load_bytes offset packet_len padded
    payload ← store_bytes used stale
    let pkt : Packet = record {
      type = message_type;
      message_id = message_id;
      fragment_id = frag_idx;
      total_fragments = total_fragments;
      lenght = u8 packet_len;
      payload = payload;
      checksum = 0;
    }
    some (record pkt { checksum = compute_checksum pkt packet_len })

  -- `while (remaining)`, on the rounds left; each round takes at least one byte.
  unfoldable pub fragments : ℕ → ℕ → ℕ → ℕ → (ℕ → List ℕ) → Option (List Packet)
  fragments zero remaining offset frag_idx stale = if remaining == 0 then some [] else none
  fragments (suc rounds) remaining offset frag_idx stale = elim (remaining == 0) [
    | true ↦ some []
    | false ↦ do
      let packet_len = if ltb packet_max_size remaining then packet_max_size else remaining
      pkt ← fragment packet_len offset frag_idx (stale 0)
      rest ←
          fragments rounds (remaining - packet_len) (offset + packet_len) (u8 (frag_idx + 1))
            (λ i. stale (i + 1))
      some (pkt ∷ rest)
  ]

-- `rawFragments`.
unfoldable pub raw_fragments : ℕ → ℕ
raw_fragments size = u32 (size + packet_max_size - 1) / packet_max_size

module _ {aes : Aes} (link : Link) where
  unfoldable pub encryption_handshake :
      ℕ → (ℕ → ℕ) → List ℕ → ℕ → ℕ → Handler aes → link.Radio → Option (Handler aes × link.Radio)
  unfolding handshake_packet
  encryption_handshake msg_id rands stale gap fuel h radio = do
    let iv = draw 16 rands
    let key_bytes = u32_to_bytes aes_key
    let iv_bytes = u32_to_bytes (load_words iv)
    pkt ← handshake_packet msg_id iv_bytes stale
    sent ← send_pkt link fuel gap pkt radio
    some (record h { iv = iv; aes_ctx = aes.init_ctx_iv key_bytes iv_bytes }, sent)

  unfoldable pub send :
      (ℕ → ℕ)
      → ℕ
      → (ℕ → List ℕ)
      → (ℕ → ℕ)
      → ℕ
      → List ℕ
      → ℕ
      → PacketTypes
      → Handler aes
      → link.Radio
      → Option (Handler aes × link.Radio)
  send rands now stale gaps fuel message size type h radio = do
    let id = u8 (rands 0)
    let entry : MessageEntry = record { id = id; expiration = now + 10000 }
    (shaken, ready) ← encryption_handshake id (λ i. rands (i + 1)) (stale 0) (gaps 0) fuel h radio
    padded ← pad message size
    let (cipher, ctx) = aes.ctr_xcrypt shaken.aes_ctx padded
    pkts ←
        fragments (type_code type) id (u8 (raw_fragments (padded_size size))) cipher
          (padded_size size) (padded_size size) 0 0 (λ i. stale (i + 1))
    let filled = push_all entry pkts shaken.messages
    sent ← transmit link fuel (λ i. gaps (i + 1)) (slot entry filled) ready
    some (record shaken { aes_ctx = ctx; messages = touch entry filled }, sent)
