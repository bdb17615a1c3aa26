-- ===== src/Exchange/Handshakes.antt =====
-- The handshake between two handlers: which vector the receiver takes over, and what happens when
-- a fragment of the message comes before the handshake has been polled.
use hydro_lo_ra_shield.Base.{
  ℕ, suc, ◌≤◌, ◌<◌, ◌≡◌, refl, ap, ◌∙◌, false, List, [], ◌∷◌, ◌++◌, some, arith, length, All,
  IsBytes, ne→==, ◌==◌,
}
use hydro_lo_ra_shield.Packet.{packet_max_size}
use hydro_lo_ra_shield.Packet.Wire.Laws.{bytes_of}
use hydro_lo_ra_shield.Endian.{u32_to_bytes}
use hydro_lo_ra_shield.Endian.Laws.{
  WholeWords, reverse_words, reverse_words_twice, reverse_words-WholeWords, length-reverse_words,
}
use hydro_lo_ra_shield.Entries.{push_all, push_back}
use hydro_lo_ra_shield.Entries.Laws.{push_all_alone}
use hydro_lo_ra_shield.Aes.{Aes, AesLaws}
use hydro_lo_ra_shield.Link.{Link, LinkLaws}
use hydro_lo_ra_shield.Handler.{Handler, aes_key}
use hydro_lo_ra_shield.Handler.Send.{draw, encryption_handshake}
use hydro_lo_ra_shield.Handler.Send.Handshake.{
  draw-WholeWords, sent_vector, shaken_ctx, length-draw, encryption_handshake-air,
}
use hydro_lo_ra_shield.Handler.Receive.{incoming, accept}
use hydro_lo_ra_shield.Handler.Receive.Laws.{accept-bytes_of}
use hydro_lo_ra_shield.Handler.Poll.{is_complete, poll, poll_entries}
use hydro_lo_ra_shield.Handler.Poll.Vector.{IsOpening, with_vector, poll-encryp}
use hydro_lo_ra_shield.Exchange.Arrivals.{
  Arrival, kept, kepts, kept-IsPacket, content-kept, IsSent, accept_all, accept_all-push_all,
}

-- A handshake from one handler to another, both with the program's key: `encryption_handshake` with
-- fuel for the radio's patience puts one frame on the air; a receiver with an empty `received` stores
-- it, and its next `poll` takes over the vector. After that the sender encrypts under the drawn
-- bytes with each word of them reversed, and the receiver under the bytes as they were drawn; if
-- the read of the freed packet's length gives at most 16.
pub handshake_vector :
    {aes : Aes} (laws : AesLaws aes) (link : Link) (link_laws : LinkLaws link) (dangling : ℕ → ℕ)
    (id : ℕ) (rands : ℕ → ℕ) (stale : List ℕ) (gap fuel : ℕ) (sender : Handler aes)
    (radio : link.Radio) (rest fresh : List ℕ) (junk : ℕ) (receiver : Handler aes) (iv : List ℕ)
    → id < 256
    → length stale ≡ packet_max_size
    → IsBytes stale
    → link_laws.patience ≤ fuel
    → length fresh ≡ packet_max_size
    → IsBytes fresh
    → receiver.received ≡ []
    → length receiver.iv ≡ 16
    → receiver.aes_ctx ≡ aes.init_ctx_iv (u32_to_bytes aes_key) iv
    → dangling 0 ≤ 16
    → (sent : Handler aes) × (after : link.Radio) × (bytes : List ℕ) × (stored : Handler aes)
      × (last : Handler aes) × (encryption_handshake link id rands stale gap fuel sender radio
          ≡ some (sent, after))
      × (link_laws.air after ≡ link_laws.air radio ++ bytes ∷ [])
      × (accept fresh junk (bytes ++ rest) receiver ≡ some stored)
      × (poll dangling stored ≡ some (last, []))
      × (sent.aes_ctx ≡ aes.init_ctx_iv (u32_to_bytes aes_key) (reverse_words (draw 16 rands)))
      × (last.aes_ctx ≡ aes.init_ctx_iv (u32_to_bytes aes_key) (draw 16 rands))
unfolding push_all push_back
handshake_vector {aes} laws link link_laws dangling id rands stale gap fuel sender radio rest fresh
      junk receiver iv id_fits room stale_bytes enough fresh_room fresh_bytes none_yet iv_size keyed
      fits =
    let (p, after, made, aired, opens, carried) =
      encryption_handshake-air link link_laws id rands stale gap fuel sender radio id_fits room
        stale_bytes enough in
    let a : Arrival = record { packet = p; gap = gap; rest = rest; fresh = fresh; junk = junk } in
    let stored : Handler aes = record receiver {
      received = (incoming p.message_id, kept a ∷ []) ∷ [];
    } in
    let opening : IsOpening (kept a) = record {
      fits = kept-IsPacket a opens.fits (fresh_room, fresh_bytes);
      type_is = opens.type_is;
      total_is = opens.total_is;
      index_is = opens.index_is;
    } in
    (
      record sender { iv = draw 16 rands; aes_ctx = shaken_ctx aes rands },
      after,
      bytes_of gap p,
      stored,
      record (with_vector laws (dangling 0) stored (u32_to_bytes aes_key) iv (sent_vector rands)
          back size iv_size keyed) { received = [] },
      made,
      aired,
      accept-bytes_of receiver gap opens.fits rest fresh junk fresh_room opens.checksum_is
          ∙ ap (λ m. some (record receiver { received = m }))
              (ap (push_all (incoming p.message_id) (kept a ∷ [])) none_yet
                ∙ push_all_alone (incoming p.message_id) (kept a) []),
      poll-encryp laws dangling stored (u32_to_bytes aes_key) iv (sent_vector rands) back size
          iv_size keyed (incoming p.message_id) (kept a) refl opening
          (content-kept a opens.fits ∙ carried) fits,
      refl,
      ap (aes.init_ctx_iv (u32_to_bytes aes_key)) (reverse_words_twice (draw-WholeWords rands)),
    )
  where
    back : WholeWords (sent_vector rands)
    back = reverse_words-WholeWords (draw-WholeWords rands)

    size : length (sent_vector rands) ≡ 16
    size = length-reverse_words (draw-WholeWords rands) ∙ length-draw 16 rands

-- If `received` is empty and then, before the next `poll`, a packet arrives that says it is the only
-- fragment of its message, such as a handshake, and after it at least one more packet of the same
-- message, `poll` returns without a change to the handler, and delivers nothing: the packets stay in
-- `received`.
pub message_blocked :
    {aes : Aes} (dangling : ℕ → ℕ) (id : ℕ) (opening next : Arrival) (others : List Arrival)
    (h : Handler aes)
    → All (IsSent id) (opening ∷ next ∷ others)
    → opening.packet.total_fragments ≡ 1
    → h.received ≡ []
    → (stored : Handler aes) × (accept_all (opening ∷ next ∷ others) h ≡ some stored)
      × (stored.received ≡ (incoming id, kepts (opening ∷ next ∷ others)) ∷ [])
      × (poll dangling stored ≡ some (stored, []))
unfolding poll poll_entries is_complete
message_blocked dangling id opening next others h sent single fresh = (
  record h { received = (incoming id, kepts (opening ∷ next ∷ others)) ∷ [] },
  accept_all-push_all id (opening ∷ next ∷ others) h sent
      ∙ ap (λ m. some (record h { received = m }))
          (ap (push_all (incoming id) (kepts (opening ∷ next ∷ others))) fresh
            ∙ push_all_alone (incoming id) (kept opening) (kepts (next ∷ others))),
  refl,
  rw (never, poll_entries) refl,
)
  where
    never : (opening.packet.total_fragments == suc (suc (length (kepts others)))) ≡ false
    never = ne→== _ _ (omega (arith, single))
