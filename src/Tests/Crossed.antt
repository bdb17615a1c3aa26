-- ===== src/Tests/Crossed.antt =====
-- A handshake of the other side that is polled while our own is being sent, at a concrete input.
use hydro_lo_ra_shield.Base.{◌≡◌, refl, ◌∙◌, [], ◌∷◌, arith, length}
use hydro_lo_ra_shield.Endian.{u32_to_bytes}
use hydro_lo_ra_shield.Endian.Laws.{
  WholeWords, reverse_words, reverse_words-WholeWords, length-reverse_words,
}
use hydro_lo_ra_shield.Entries.{slot}
use hydro_lo_ra_shield.Handler.{aes_key, unexpired}
use hydro_lo_ra_shield.Handler.Send.Steps.{greeting, resting}
use hydro_lo_ra_shield.Main.System.{System, Step}
use hydro_lo_ra_shield.Main.System.Replaced.{vector_replaced}
use hydro_lo_ra_shield.Exchange.Continued.{IsContinued}
use hydro_lo_ra_shield.Packet.{Packet}
use hydro_lo_ra_shield.Handler.Poll.Vector.{IsOpening}
use hydro_lo_ra_shield.Handler.Receive.{incoming}
use hydro_lo_ra_shield.Handler.Send.Handshake.{sent_vector, draw-WholeWords, length-draw}
use hydro_lo_ra_shield.Tests.Messages.{opening, opening-IsFragment, opening_vector}
use hydro_lo_ra_shield.Tests.Toys.{toy_aes, toy_aes_laws}
use hydro_lo_ra_shield.Tests.Clients.{toy_os}
use hydro_lo_ra_shield.Tests.Systems.{frame_spi, zeros, new_system}
use hydro_lo_ra_shield.Tests.Threads.{
  hi_entry, cleared, cleared-IsStale, hi_out, hi_out-IsOutgoing, on_air,
}

-- The handshake as `receive` leaves it, with junk in its checksum field.
abbrev opened : Packet
opened = record opening { checksum = 777 }

opened-IsOpening : IsOpening opened
opened-IsOpening = record {
  fits = record {
    type_fits = omega arith;
    message_fits = omega arith;
    fragment_fits = omega arith;
    total_fits = omega arith;
    lenght_fits = omega arith;
    payload_size = refl;
    payload_bytes = opening-IsFragment.fits.payload_bytes;
  };
  type_is = refl;
  total_is = refl;
  index_is = refl;
}

-- The other side's handshake has come in while ours was being sent.
abbrev crossed : System toy_aes frame_spi toy_os
crossed = record new_system {
  handler = record new_system.handler {
    aes_ctx = (u32_to_bytes aes_key, zeros 16);
    received = (incoming 5, opened ∷ []) ∷ [];
  };
  lora = on_air;
  sender = resting (greeting hi_out (zeros 16));
}

their_vector-WholeWords : WholeWords (sent_vector (λ i. i))
their_vector-WholeWords = reverse_words-WholeWords (draw-WholeWords (λ i. i))

their_size : length (sent_vector (λ i. i)) ≡ 16
their_size = length-reverse_words (draw-WholeWords (λ i. i)) ∙ length-draw 16 (λ i. i)

no_hi_left : slot hi_entry (unexpired 8 []) ≡ []
unfolding slot unexpired
no_hi_left = refl

vector_replaced_example :
    (u : System toy_aes frame_spi toy_os) × (v : System toy_aes frame_spi toy_os) × Step zeros
      crossed u
    × Step zeros u v
    × IsContinued toy_aes hi_out 0
        (u32_to_bytes aes_key, reverse_words (sent_vector (λ i. i)))
        v.sender
vector_replaced_example =
    vector_replaced toy_aes_laws zeros (λ i. 16) 8 crossed 5 opened (zeros 16)
      (sent_vector (λ i. i)) their_vector-WholeWords their_size refl refl opened-IsOpening
      opening_vector refl (omega arith) hi_out (zeros 16) cleared 0 refl hi_out-IsOutgoing
      cleared-IsStale no_hi_left
