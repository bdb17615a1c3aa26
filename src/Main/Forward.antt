-- ===== src/Main/Forward.antt =====
-- A message that has come in is handed to the socket.
use mathlib.Core.List.{Permᴰ}
use hydro_lo_ra_shield.Base.{
  ℕ, ◌≤◌, ◌<◌, ◌≡◌, refl, ap, true, List, [], ◌∷◌, some, arith, length, take, length-take,
  load_bytes_in, All, u8, IsBytes,
}
use hydro_lo_ra_shield.Aes.{Aes, AesLaws}
use hydro_lo_ra_shield.Packet.{msg, type_code}
use hydro_lo_ra_shield.Padding.{padded_size, pad}
use hydro_lo_ra_shield.Padding.RoundTrip.{IsPlain}
use hydro_lo_ra_shield.Handler.{Handler, clean}
use hydro_lo_ra_shield.Handler.Send.{fragments, raw_fragments}
use hydro_lo_ra_shield.Handler.Send.Fragments.{IsStale}
use hydro_lo_ra_shield.Exchange.Arrivals.{Arrival, packets, HasRoom, accept_all}
use hydro_lo_ra_shield.Exchange.Fragmented.{longest}
use hydro_lo_ra_shield.Exchange.EndToEnd.{message_delivered}
use hydro_lo_ra_shield.Interface.Connection.{send_to_client}
use hydro_lo_ra_shield.UnixSocket.{Os, Socket, send_data}
use hydro_lo_ra_shield.Main.{forward, forward_all, house_keeping}

module _ {os : Os} where
  forward_whole :
      (buffer message : List ℕ) (size : ℕ) (s : Socket os)
      → take size buffer ≡ message
      → length message ≡ size
      → forward_all (record { bytes = buffer; len = size } ∷ []) s ≡ some (send_data message s)
  unfolding forward_all forward send_to_client
  forward_whole buffer message size s same len =
      rw (load_bytes_in 0 size buffer (omega (arith, length-take size buffer, ap length same, len)))
        (ap (λ m. some (send_data m s)) same)

  -- A message of at most 30336 bytes, not empty and not of whole blocks that end in a byte from 1
  -- to 15, reaches the client of the receiving side: when its fragments, encrypted under the
  -- context that the receiver has, reach an idle receiver with a callback in any order, `receive`
  -- stores each of them, and the next round of the housekeeping thread hands exactly the message
  -- to the socket, once.
  pub message_forwarded :
      {aes : Aes} (laws : AesLaws aes) (message : List ℕ) (size id : ℕ) (dangling : ℕ → ℕ) (now : ℕ)
      (stale : ℕ → List ℕ) (buffer : List ℕ) (sent arrivals : List Arrival) (h : Handler aes)
      (s : Socket os)
      → length message ≡ size
      → 0 < size
      → size ≤ longest
      → IsBytes message
      → IsPlain message size
      → id < 256
      → IsStale stale
      → pad message size ≡ some buffer
      → fragments
          (type_code msg)
          id
          (u8 (raw_fragments (padded_size size)))
          (aes.ctr_xcrypt h.aes_ctx buffer).0
          (padded_size size)
          (padded_size size)
          0
          0
          stale
        ≡ some (packets sent)
      → All HasRoom sent
      → Permᴰ sent arrivals
      → h.received ≡ []
      → h.msg_callback ≡ true
      → (stored : Handler aes) × (last : Handler aes) × (accept_all arrivals h ≡ some stored)
        × (house_keeping dangling now stored s ≡ some (last, send_data message s))
        × (last.received ≡ [])
  unfolding house_keeping clean
  message_forwarded laws message size id dangling now stale buffer sent arrivals h s len pos small
        bytes plain id_fits rooms padded fragmented room order fresh callback =
      let (stored, last, taken, polled, whole, emptied) =
        message_delivered laws message size id dangling stale buffer sent arrivals h len pos small
          bytes plain id_fits rooms padded fragmented room order fresh callback in
      (
        stored,
        clean now last,
        taken,
        rw (polled, forward_whole buffer message size s whole len) refl,
        emptied,
      )
