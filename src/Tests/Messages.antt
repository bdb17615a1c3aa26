-- ===== src/Tests/Messages.antt =====
-- Runs and instances for whole messages: a text of two fragments, the handshake, `clean`.
use mathlib.Core.List.{Permᴰ}
use hydro_lo_ra_shield.Base.{
  ℕ, List, ◌++◌, ◌+◌, ◌≡◌, inl, refl, true, [], ◌∷◌, some, none, arith, take, replicate, load_bytes,
  store_bytes,
}
use hydro_lo_ra_shield.Packet.{Packet, msg, content}
use hydro_lo_ra_shield.Packet.Checksum.{compute_checksum}
use hydro_lo_ra_shield.Endian.{load_words, store_words, swap_endianness, swap_word}
use hydro_lo_ra_shield.Endian.Laws.{reverse_words}
use hydro_lo_ra_shield.Entries.{slot}
use hydro_lo_ra_shield.Handler.{Handler, clean, aes_key}
use hydro_lo_ra_shield.Handler.Send.{draw, send, encryption_handshake}
use hydro_lo_ra_shield.Endian.{u32_to_bytes}
use hydro_lo_ra_shield.Handler.Send.Fragments.{IsFragment}
use hydro_lo_ra_shield.Handler.Send.Handshake.{sent_vector}
use hydro_lo_ra_shield.Handler.Receive.{incoming, accept}
use hydro_lo_ra_shield.Handler.Poll.{poll}
use hydro_lo_ra_shield.Handler.Poll.Laws.{pending, poll-pending}
use hydro_lo_ra_shield.Handler.Sort.{sort}
use hydro_lo_ra_shield.Exchange.Arrivals.{kepts, IsSent, accept_all}
use hydro_lo_ra_shield.Exchange.EndToEnd.{message_delivered}
use hydro_lo_ra_shield.Exchange.Sending.{IsSending, send-IsSending}
use hydro_lo_ra_shield.Exchange.Handshakes.{handshake_vector, message_blocked}
use hydro_lo_ra_shield.Tests.Toys.{
  toy_aes, toy_aes_laws, toy_link, toy_link_laws, toy_patience, ToyRadio,
}
use hydro_lo_ra_shield.Tests.Texts.{
  blank, blanks_fit, idle, long_text, long_text-IsBytes, long_padded, arrive, second_part,
  second-IsPacket, sent_parts, swapped_parts, long_text_padded, long_text_fragments, parts-HaveRoom,
}

message_delivered_example :
    (stored : Handler toy_aes) × (last : Handler toy_aes) × (accept_all swapped_parts idle
      ≡ some stored)
    × (poll (λ i. 0) stored ≡ some (last, record { bytes = long_padded; len = 120 } ∷ []))
    × (take 120 long_padded ≡ long_text)
    × (last.received ≡ [])
message_delivered_example =
    message_delivered toy_aes_laws long_text 120 5 (λ i. 0) (λ _. blank) long_padded sent_parts
      swapped_parts idle refl (omega arith) (omega arith) long_text-IsBytes (inl (omega arith))
      (omega arith) blanks_fit long_text_padded long_text_fragments parts-HaveRoom
      (Permᴰ.swap refl refl) refl refl

abbrev quiet : ToyRadio
quiet = record { busy = true; sent = []; inbox = none }

send-IsSending_example :
    (last : Handler toy_aes) × (after : ToyRadio) × (send toy_link
        (λ i. i + 5)
        100
        (λ _. blank)
        (λ _. 0)
        2
        long_text
        120
        msg
        idle
        quiet
      ≡ some (last, after))
    × IsSending toy_link toy_link_laws
        (λ i. i + 5)
        100
        (λ _. 0)
        long_text
        120
        msg
        idle
        quiet
        last
        after
unfolding slot
send-IsSending_example =
    send-IsSending toy_aes_laws toy_link toy_link_laws (λ i. i + 5) 100 (λ _. blank) (λ _. 0) 2
      long_text 120 msg idle quiet refl (omega arith) (omega arith) long_text-IsBytes blanks_fit
      toy_patience refl

abbrev pub opening : Packet
opening = record {
  type = 1;
  message_id = 5;
  fragment_id = 0;
  total_fragments = 1;
  lenght = 16;
  payload = 3 ∷ 2 ∷ 1 ∷ 0 ∷ 7 ∷ 6 ∷ 5 ∷ 4 ∷ 11 ∷ 10 ∷ 9 ∷ 8 ∷ 15 ∷ 14 ∷ 13 ∷ 12 ∷ replicate 103 0;
  checksum = 135;
}

pub opening-IsFragment : IsFragment 1 5 1 0 opening
unfolding compute_checksum
opening-IsFragment = record {
  fits = record {
    type_fits = omega arith;
    message_fits = omega arith;
    fragment_fits = omega arith;
    total_fits = omega arith;
    lenght_fits = omega arith;
    payload_size = refl;
    payload_bytes = omega arith;
  };
  type_is = refl;
  id_is = refl;
  total_is = refl;
  index_is = refl;
  checksum_is = refl;
}

pub opening_vector : content opening ≡ sent_vector (λ i. i)
unfolding reverse_words
opening_vector = refl

-- A receiver with the program's key, which `init` has set.
abbrev ready : Handler toy_aes
ready = record idle { aes_ctx = (u32_to_bytes aes_key, []) }

handshake_vector_example :
    (sent : Handler toy_aes) × (after : ToyRadio) × (bytes : List ℕ) × (stored : Handler toy_aes)
    × (last : Handler toy_aes) × (encryption_handshake toy_link 5 (λ i. i) blank 0 2 idle quiet
        ≡ some (sent, after))
    × (toy_link_laws.air after ≡ toy_link_laws.air quiet ++ bytes ∷ [])
    × (accept blank 9 (bytes ++ []) ready ≡ some stored)
    × (poll (λ i. 0) stored ≡ some (last, []))
    × (sent.aes_ctx ≡ (u32_to_bytes aes_key, reverse_words (draw 16 (λ i. i))))
    × (last.aes_ctx ≡ (u32_to_bytes aes_key, draw 16 (λ i. i)))
handshake_vector_example =
    handshake_vector toy_aes_laws toy_link toy_link_laws (λ i. 0) 5 (λ i. i) blank 0 2 idle quiet []
      blank 9 ready [] (omega arith) (blanks_fit 0).0 (blanks_fit 0).1 toy_patience (blanks_fit 0).0
      (blanks_fit 0).1 refl refl refl (omega arith)

opening-IsSent : IsSent 5 (arrive opening)
opening-IsSent = record {
  fits = opening-IsFragment.fits;
  id_is = refl;
  checksum_is = opening-IsFragment.checksum_is;
  room = refl;
}

second-IsSent : IsSent 5 (arrive second_part)
unfolding compute_checksum
second-IsSent = record { fits = second-IsPacket; id_is = refl; checksum_is = refl; room = refl }

message_blocked_example :
    (stored : Handler toy_aes) × (accept_all (arrive opening ∷ arrive second_part ∷ []) idle
      ≡ some stored)
    × (stored.received ≡ (incoming 5, kepts (arrive opening ∷ arrive second_part ∷ [])) ∷ [])
    × (poll (λ i. 0) stored ≡ some (stored, []))
message_blocked_example =
    message_blocked (λ i. 0) 5 (arrive opening) (arrive second_part) [] idle
      (opening-IsSent, (second-IsSent, tt)) refl refl

-- A handler with one complete handshake and one lone fragment.
abbrev mixed : Handler toy_aes
mixed = record idle { received = (incoming 9, opening ∷ []) ∷ (incoming 5, second_part ∷ []) ∷ [] }

abbrev polled_mixed : Handler toy_aes
polled_mixed = record mixed {
  aes_ctx = ([], draw 16 (λ i. i));
  received = (incoming 5, second_part ∷ []) ∷ [];
}

poll-mixed : poll (λ i. 0) mixed ≡ some (polled_mixed, [])
unfolding poll sort load_bytes store_words swap_endianness load_words store_bytes swap_word
poll-mixed = refl

poll-pending_example : polled_mixed.received ≡ pending mixed.received
poll-pending_example = poll-pending (λ i. 0) mixed poll-mixed

abbrev dated : Handler toy_aes
dated = record idle {
  messages =
      (record { id = 1; expiration = 10100 }, [])
      ∷ (record { id = 2; expiration = 10200 }, [])
      ∷ [];
}

clean_at_expiration :
    (clean 10100 dated).messages ≡ (record { id = 2; expiration = 10200 }, []) ∷ []
unfolding clean
clean_at_expiration = refl
