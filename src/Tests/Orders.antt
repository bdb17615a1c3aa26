-- ===== src/Tests/Orders.antt =====
-- The theorems on the order of arrival and on the empty message, at concrete inputs.
use mathlib.Core.List.{Permᴰ}
use hydro_lo_ra_shield.Base.{◌≡◌, refl, [], ◌++◌, none, some, arith, All-replicate, IsByte}
use hydro_lo_ra_shield.Base.Fault.{◌>>=◌}
use hydro_lo_ra_shield.Packet.{Packet, IsPacket}
use hydro_lo_ra_shield.Packet.Checksum.{compute_checksum}
use hydro_lo_ra_shield.Packet.Wire.Laws.{bytes_of}
use hydro_lo_ra_shield.Handler.{Handler}
use hydro_lo_ra_shield.Handler.Receive.{accept}
use hydro_lo_ra_shield.Handler.Poll.{poll}
use hydro_lo_ra_shield.Exchange.Arrivals.{IsSent, accept_all}
use hydro_lo_ra_shield.Exchange.Orders.{accept_all-poll}
use hydro_lo_ra_shield.Exchange.Empty.{empty_message-poll}
use hydro_lo_ra_shield.Tests.Toys.{toy_aes, toy_aes_laws}
use hydro_lo_ra_shield.Tests.Texts.{
  blank, idle, arrive, first_part, second_part, first-IsPacket, second-IsPacket, sent_parts,
  swapped_parts,
}

first-IsSent : IsSent 5 (arrive first_part)
unfolding compute_checksum
first-IsSent = record { fits = first-IsPacket; id_is = refl; checksum_is = refl; room = refl }

second-IsSent : IsSent 5 (arrive second_part)
unfolding compute_checksum
second-IsSent = record { fits = second-IsPacket; id_is = refl; checksum_is = refl; room = refl }

accept_all-poll_example :
    (accept_all sent_parts idle >>= poll (λ i. 0))
    ≡ (accept_all swapped_parts idle >>= poll (λ i. 0))
accept_all-poll_example =
    accept_all-poll 5 2 (λ i. 0) idle refl (omega arith) sent_parts swapped_parts
      (Permᴰ.swap refl refl) (first-IsSent, (second-IsSent, tt)) (refl, (refl, tt)) refl
      (((λ e. absurd (omega (arith, e))), tt), (tt, tt))

abbrev empty_packet : Packet
empty_packet = record {
  type = 0;
  message_id = 5;
  fragment_id = 0;
  total_fragments = 1;
  lenght = 0;
  payload = blank;
  checksum = 255;
}

empty-IsPacket : IsPacket empty_packet
empty-IsPacket = record {
  type_fits = omega arith;
  message_fits = omega arith;
  fragment_fits = omega arith;
  total_fits = omega arith;
  lenght_fits = omega arith;
  payload_size = refl;
  payload_bytes = All-replicate IsByte 119 0 (omega arith);
}

empty_checksum : empty_packet.checksum ≡ compute_checksum empty_packet 0
unfolding compute_checksum
empty_checksum = refl

empty_message-poll_example :
    (kept : Handler toy_aes) × (accept blank 0 (bytes_of 0 empty_packet ++ []) idle ≡ some kept)
    × (poll (λ i. 0) kept ≡ none)
empty_message-poll_example =
    empty_message-poll toy_aes_laws (λ i. 0) idle refl empty_packet 0 [] blank 0 empty-IsPacket refl
      empty_checksum refl refl refl refl
