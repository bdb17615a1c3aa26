-- ===== src/Lora/Bytes.antt =====
-- The class as a radio hands over bytes.
use hydro_lo_ra_shield.Base.{ℕ, List, IsBytes}
use hydro_lo_ra_shield.Base.Fault.{Returns-then}
use hydro_lo_ra_shield.Spi.{Spi}
use hydro_lo_ra_shield.Link.{Reception}
use hydro_lo_ra_shield.Driver.Transfer.{lora_receive_packet_blocking}
use hydro_lo_ra_shield.Driver.Transfer.Bytes.{
  GivesBytes, ReceivedBytes, lora_receive_packet_blocking-ReceivedBytes,
}
use hydro_lo_ra_shield.Lora.{Device}
use hydro_lo_ra_shield.Lora.Radio.{receive, radio}
use hydro_lo_ra_shield.Handler.Invariant.Receive.{HandsBytes}

pub radio-HandsBytes :
    (spi : Spi) (fresh : ℕ → List ℕ) → GivesBytes spi → HandsBytes (radio spi fresh)
unfolding radio receive
radio-HandsBytes spi fresh gives rx len timeout d bytes =
    Returns-then (ReceivedBytes spi gives fresh)
      (λ (r : Reception × Device spi). IsBytes r.0.buffer)
      (lora_receive_packet_blocking spi fresh rx timeout d.chip) _
      (lora_receive_packet_blocking-ReceivedBytes spi gives fresh rx timeout d.chip bytes)
      (λ r got. got)
