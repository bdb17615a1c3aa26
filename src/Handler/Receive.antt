-- ===== src/Handler/Receive.antt =====
-- lib/packethandler.cpp: `receive`. Arguments that the source does not name: `rx`, the stack's
-- bytes in `rx_buffer`; `fresh` and `junk`, the payload and the checksum field of the packet as
-- `malloc` returns it.
pub mod Laws
pub mod Faults
use hydro_lo_ra_shield.Base.{
  ℕ, ◌+◌, Bool, true, false, not, ◌||◌, List, Option, none, some, ◌==◌, if◌then◌else◌,
}
use hydro_lo_ra_shield.Base.Fault.{◌>>=◌}
use hydro_lo_ra_shield.Packet.{Packet, packet_max_size}
use hydro_lo_ra_shield.Packet.Checksum.{validate_checksum}
use hydro_lo_ra_shield.Packet.Wire.{Frame, foreign, frame, decode}
use hydro_lo_ra_shield.Entries.{MessageEntry, push_back}
use hydro_lo_ra_shield.Aes.{Aes}
use hydro_lo_ra_shield.Link.{Link, lora_ok}
use hydro_lo_ra_shield.Handler.{Handler}

-- The key of an incoming message: every one has the same expiration.
abbrev pub incoming : ℕ → MessageEntry
incoming id = record { id = id; expiration = 0xffff_ffff }

module _ {aes : Aes} where
  unfoldable pub store_frame : Frame → Handler aes → Handler aes
  store_frame foreign h = h
  store_frame (frame pkt received_checksum) h =
      if validate_checksum pkt received_checksum
      then record h { received = push_back (incoming pkt.message_id) pkt h.received }
      else h

  -- `receive` from the header test on.
  unfoldable pub accept : List ℕ → ℕ → List ℕ → Handler aes → Option (Handler aes)
  unfolding store_frame
  accept fresh junk buffer h = do read ← decode fresh junk buffer; some (store_frame read h)

  unfoldable pub receive :
      (link : Link)
      → List ℕ
      → List ℕ
      → ℕ
      → Handler aes
      → link.Radio
      → Option (Handler aes × link.Radio)
  unfolding accept
  receive link rx fresh junk h radio = do
    (reception, after) ← link.receive rx (packet_max_size + 9) 500 radio
    accepted ←
        if reception.received == 0 || not (reception.error == lora_ok)
        then some h
        else accept fresh junk reception.buffer h
    some (accepted, after)
