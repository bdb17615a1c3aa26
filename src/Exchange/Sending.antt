-- ===== src/Exchange/Sending.antt =====
-- `send` as a whole: what goes on the air and what the handler keeps.
use hydro_lo_ra_shield.Base.{
  ℕ, suc, ◌+◌, ◌≤◌, ◌<◌, ◌≡◌, refl, ap, ◌∙◌, List, [], ◌∷◌, ◌++◌, some, arith, length, All, IsBytes,
  u8, append_assoc,
}
use hydro_lo_ra_shield.Packet.{
  Packet, PacketTypes, IsPacket, content, encryp, type_code, msg, ack, nack, flags, dict,
}
use hydro_lo_ra_shield.Entries.{MessageEntry, slot, touch, push_all}
use hydro_lo_ra_shield.Entries.Laws.{slot-touch, slot-push_all}
use hydro_lo_ra_shield.Padding.{pad, padded_size}
use hydro_lo_ra_shield.Padding.Laws.{pad_lem, padded}
use hydro_lo_ra_shield.Aes.{Aes, AesLaws}
use hydro_lo_ra_shield.Link.{Link, LinkLaws}
use hydro_lo_ra_shield.Handler.{Handler}
use hydro_lo_ra_shield.Handler.Send.{draw, raw_fragments, send}
use hydro_lo_ra_shield.Handler.Send.Fragments.{join, Run, IsFragment, IsStale}
use hydro_lo_ra_shield.Handler.Send.Transmit.{frames, transmit-air}
use hydro_lo_ra_shield.Handler.Send.Handshake.{sent_vector, shaken_ctx, encryption_handshake-air}
use hydro_lo_ra_shield.Exchange.Fragmented.{longest, fragments-total}

pub type_code-lt : (t : PacketTypes) → type_code t < 256
type_code-lt msg = omega arith
type_code-lt encryp = omega arith
type_code-lt ack = omega arith
type_code-lt nack = omega arith
type_code-lt flags = omega arith
type_code-lt dict = omega arith

pub Run-IsPacket :
    (type id total idx : ℕ) (ps : List Packet) → Run type id total idx ps → All IsPacket ps
Run-IsPacket type id total idx [] run = tt
Run-IsPacket type id total idx (p ∷ ps) run =
    (run.0.fits, Run-IsPacket type id total (suc idx) ps run.1)

-- The key of the message that `send` makes.
abbrev pub sent_entry : (ℕ → ℕ) → ℕ → MessageEntry
sent_entry rands now = record { id = u8 (rands 0); expiration = now + 10000 }

-- The draws of the handshake come after that of the id.
abbrev pub later : (ℕ → ℕ) → ℕ → ℕ
later rands i = rands (i + 1)

-- What `send` has done: `handshake` and `pkts` are on the air, in this order, and `pkts` are kept.
pub record IsSending {aes : Aes} (link : Link) (laws : LinkLaws link) (rands : ℕ → ℕ) (now : ℕ)
    (gaps : ℕ → ℕ) (message : List ℕ) (size : ℕ) (type : PacketTypes) (h : Handler aes)
    (radio : link.Radio) (last : Handler aes) (after : link.Radio) : Type 0 where
  pub buffer : List ℕ
  pub handshake : Packet
  pub pkts : List Packet
  pub padded : pad message size ≡ some buffer
  pub aired : laws.air after ≡ laws.air radio ++ frames gaps (handshake ∷ pkts)
  pub opens : IsFragment (type_code encryp) (u8 (rands 0)) 1 0 handshake
  pub vector : content handshake ≡ sent_vector (later rands)
  pub numbered : Run (type_code type) (u8 (rands 0)) (u8 (raw_fragments (padded_size size))) 0 pkts
  pub encrypted : join pkts ≡ (aes.ctr_xcrypt (shaken_ctx aes (later rands)) buffer).0
  pub counted : length pkts ≡ u8 (raw_fragments (padded_size size))
  pub stored : slot (sent_entry rands now) last.messages ≡ pkts
  pub untouched : last.received ≡ h.received

module _ {aes : Aes} (aes_laws : AesLaws aes) (link : Link) (laws : LinkLaws link) (rands : ℕ → ℕ)
    (now : ℕ) (stale : ℕ → List ℕ) (gaps : ℕ → ℕ) (fuel : ℕ) (message : List ℕ) (size : ℕ)
    (type : PacketTypes) (h : Handler aes) (radio : link.Radio) where
  -- `send` returns, with fuel for the radio's patience, for every message of 1 to 30336 bytes
  -- whose key is new. It has put on the air one handshake frame, with the drawn vector, and then
  -- the fragments of the padded message under the new context, numbered from 0 and as many as
  -- each says; it keeps these fragments, and does not touch what was received.
  pub send-IsSending :
      length message ≡ size
      → 0 < size
      → size ≤ longest
      → IsBytes message
      → IsStale stale
      → laws.patience ≤ fuel
      → slot (sent_entry rands now) h.messages ≡ []
      → (last : Handler aes) × (after : link.Radio) × (send link rands now stale gaps fuel message
            size type h radio
          ≡ some (last, after))
        × IsSending link laws rands now gaps message size type h radio last after
  unfolding send
  send-IsSending len pos small bytes rooms enough new =
      let buffer = padded message size len pos (omega arith) in
      let added = pad_lem message size len (omega arith) in
      let (hs, ready, shaken, first, opens, vector) =
        encryption_handshake-air link laws (u8 (rands 0)) (later rands) (stale 0) (gaps 0) fuel h
          radio (omega arith) (rooms 0).0 (rooms 0).1 enough in
      let (ps, made, run, joined, count) =
        fragments-total message size len pos small bytes aes_laws (shaken_ctx aes (later rands))
          (type_code type) (u8 (rands 0)) (λ i. stale (i + 1)) (type_code-lt type) (omega arith)
          (λ i. rooms (i + 1)) buffer added in
      let kept : slot (sent_entry rands now) (push_all (sent_entry rands now) ps h.messages) ≡ ps =
        slot-push_all (sent_entry rands now) ps h.messages ∙ ap (λ l. l ++ ps) new in
      let (after, ends, aired) =
        transmit-air link laws fuel (λ i. gaps (i + 1)) ps ready enough
          (Run-IsPacket (type_code type) (u8 (rands 0)) _ 0 ps run) in
      (
        record h {
          iv = draw 16 (later rands);
          aes_ctx = (aes.ctr_xcrypt (shaken_ctx aes (later rands)) buffer).1;
          messages = touch (sent_entry rands now) (push_all (sent_entry rands now) ps h.messages);
        },
        after,
        rw shaken (rw added (rw made (rw kept (rw ends refl)))),
        record {
          buffer = buffer;
          handshake = hs;
          pkts = ps;
          padded = added;
          aired =
              aired
              ∙ ap (λ fs. fs ++ frames (λ i. gaps (i + 1)) ps) first
              ∙ append_assoc (laws.air radio) _ (frames (λ i. gaps (i + 1)) ps);
          opens = opens;
          vector = vector;
          numbered = run;
          encrypted = joined;
          counted = count;
          stored =
              slot-touch (sent_entry rands now) (push_all (sent_entry rands now) ps h.messages)
              ∙ kept;
          untouched = refl;
        },
      )
