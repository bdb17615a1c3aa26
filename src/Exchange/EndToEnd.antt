-- ===== src/Exchange/EndToEnd.antt =====
-- A text message from `send` to the callback of the other side.
use mathlib.Core.List.{Permᴰ}
use hydro_lo_ra_shield.Base.{
  ℕ, ◌^◌, ◌≤◌, ◌<◌, ◌≡◌, refl, true, List, [], ◌∷◌, some, arith, length, take, All, u8, IsBytes,
}
use hydro_lo_ra_shield.Packet.{msg, type_code}
use hydro_lo_ra_shield.Padding.{Delivery, padded_size, pad, strip}
use hydro_lo_ra_shield.Padding.Laws.{padded_size_bounds}
use hydro_lo_ra_shield.Padding.RoundTrip.{IsPlain}
use hydro_lo_ra_shield.Aes.{Aes, AesLaws}
use hydro_lo_ra_shield.Handler.{Handler}
use hydro_lo_ra_shield.Handler.Send.{fragments, raw_fragments}
use hydro_lo_ra_shield.Handler.Send.Fragments.{join, Run, IsStale}
use hydro_lo_ra_shield.Handler.Poll.{poll}
use hydro_lo_ra_shield.Exchange.Arrivals.{Arrival, packets, HasRoom, accept_all}
use hydro_lo_ra_shield.Exchange.Delivery.{arrived, all_accepted, polled}
use hydro_lo_ra_shield.Exchange.Fragmented.{
  longest, raw_fragments_lem, padded-IsBytes, sent-Run, stripped_cipher,
}

-- A message of at most 30336 bytes, not empty and not of whole blocks that end in a byte from 1
-- to 15, is delivered: when its fragments, encrypted under the context that the receiver has,
-- reach an idle receiver with a callback in any order, `receive` stores each of them, and the
-- next `poll` calls the callback once, with a buffer that starts with the message and with the
-- message's length, and leaves nothing in `received`.
pub message_delivered :
    {aes : Aes} (laws : AesLaws aes) (message : List ℕ) (size id : ℕ) (dangling : ℕ → ℕ)
    (stale : ℕ → List ℕ) (buffer : List ℕ) (sent arrivals : List Arrival) (h : Handler aes)
    → length message ≡ size
    → 0 < size
    → size ≤ longest
    → IsBytes message
    → IsPlain message size
    → id < 256
    → IsStale stale
    → pad message size ≡ some buffer
    → fragments
        (type_code msg)
        id
        (u8 (raw_fragments (padded_size size)))
        (aes.ctr_xcrypt h.aes_ctx buffer).0
        (padded_size size)
        (padded_size size)
        0
        0
        stale
      ≡ some (packets sent)
    → All HasRoom sent
    → Permᴰ sent arrivals
    → h.received ≡ []
    → h.msg_callback ≡ true
    → (stored : Handler aes) × (last : Handler aes) × (accept_all arrivals h ≡ some stored)
      × (poll dangling stored ≡ some (last, record { bytes = buffer; len = size } ∷ []))
      × (take size buffer ≡ message)
      × (last.received ≡ [])
message_delivered {aes} laws message size id dangling stale buffer sent arrivals h len pos small
      bytes plain id_fits rooms padding_added fragmented room order fresh callback =
    (
      arrived laws id total dangling cipher d sent arrivals run.0 run.1 run.2 some_fragments fits
          room order h fresh callback stripped.0,
      record h { aes_ctx = (aes.ctr_xcrypt h.aes_ctx cipher).1; received = [] },
      all_accepted laws id total dangling cipher d sent arrivals run.0 run.1 run.2 some_fragments
          fits room order h fresh callback stripped.0,
      polled laws id total dangling cipher d sent arrivals run.0 run.1 run.2 some_fragments fits
          room order h fresh callback stripped.0,
      stripped.1,
      refl,
    )
  where
    total : ℕ
    total = u8 (raw_fragments (padded_size size))

    cipher : List ℕ
    cipher = (aes.ctr_xcrypt h.aes_ctx buffer).0

    d : Delivery
    d = record { bytes = buffer; len = size }

    run :
        Run (type_code msg) id total 0 (packets sent)
        × (join (packets sent) ≡ cipher)
        × (length (packets sent) ≡ total)
    run =
        sent-Run message size len pos small bytes laws h.aes_ctx (type_code msg) id stale
          (omega arith) id_fits rooms buffer padding_added (packets sent) fragmented

    stripped :
        (strip (length cipher) (aes.ctr_xcrypt h.aes_ctx cipher).0 ≡ some (some d))
        × (take size buffer ≡ message)
    stripped =
        stripped_cipher message size len pos small bytes laws h.aes_ctx (type_code msg) id stale
          (omega arith) id_fits rooms buffer padding_added plain

    some_fragments : 0 < total
    some_fragments = omega (arith, raw_fragments_lem size pos small)

    fits : length cipher < 2 ^ 32
    fits = omega (
      arith,
      laws.length-ctr_xcrypt h.aes_ctx buffer,
      (padded-IsBytes message size len pos small bytes buffer padding_added).1,
      padded_size_bounds size (omega arith),
    )
