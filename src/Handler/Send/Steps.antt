-- ===== src/Handler/Send/Steps.antt =====
-- lib/packethandler.cpp: `send` in steps, as it runs beside the other threads. A step ends where
-- the thread gives up the radio's mutex or sleeps: there is one for each call of `lora->send` and
-- for each `sleep_for`, with what follows the sleep up to the next call.
pub mod Uninterrupted
pub mod Keyed
use hydro_lo_ra_shield.Base.{ℕ, ◌+◌, ◌≡◌, Bool, true, false, List, [], ◌∷◌, Option, none, some, u8}
use hydro_lo_ra_shield.Base.Fault.{◌>>=◌}
use hydro_lo_ra_shield.Packet.{Packet, PacketTypes, type_code}
use hydro_lo_ra_shield.Packet.Wire.{encode}
use hydro_lo_ra_shield.Endian.{load_words, u32_to_bytes}
use hydro_lo_ra_shield.Entries.{MessageEntry, push_all, slot, touch}
use hydro_lo_ra_shield.Padding.{pad, padded_size}
use hydro_lo_ra_shield.Aes.{Aes}
use hydro_lo_ra_shield.Link.{Link}
use hydro_lo_ra_shield.Handler.{Handler, aes_key}
use hydro_lo_ra_shield.Handler.Send.Fragments.{IsStale}
use hydro_lo_ra_shield.Handler.Send.{draw, handshake_packet, fragments, raw_fragments}

-- What `send` was called with, and the key that it made.
pub record Outgoing : Type 0 where
  pub entry : MessageEntry
  pub message : List ℕ
  pub size : ℕ
  pub type : PacketTypes

-- What `send_pkt` was called for: the handshake, with `iv_bytes`; or a fragment, with those that
-- the loop over `messages[entry]` still has to transmit.
pub data Job : Type 0 where
  greeting : Outgoing → List ℕ → Job
  transmitting : MessageEntry → List Packet → Job

-- Where the thread is: not in `send`; before `lora->send` of a buffer; in the sleep after it, with
-- `succes`; in the sleep at the end of `send_pkt`.
pub data Stage : Type 0 where
  idle : Stage
  trying : List ℕ → Job → Stage
  waiting : List ℕ → Bool → Job → Stage
  resting : Job → Stage

-- The head of the loop that transmits the fragments.
unfoldable pub next_frame : MessageEntry → ℕ → List Packet → Option Stage
next_frame entry gap [] = some idle
next_frame entry gap (pkt ∷ pkts) = do
  buffer ← encode gap pkt
  some (trying buffer (transmitting entry pkts))

module _ {aes : Aes} where
  -- `send` up to its first call of the radio, in the handshake.
  unfoldable pub begin_send :
      (ℕ → ℕ)
      → ℕ
      → List ℕ
      → ℕ
      → List ℕ
      → ℕ
      → PacketTypes
      → Handler aes
      → Option (Handler aes × Stage)
  unfolding handshake_packet
  begin_send rands now stale gap message size type h = do
    let id = u8 (rands 0)
    let entry : MessageEntry = record { id = id; expiration = now + 10000 }
    let iv = draw 16 (λ i. rands (i + 1))
    let key_bytes = u32_to_bytes aes_key
    let iv_bytes = u32_to_bytes (load_words iv)
    pkt ← handshake_packet id iv_bytes stale
    buffer ← encode gap pkt
    some (
      record h { iv = iv; aes_ctx = aes.init_ctx_iv key_bytes iv_bytes },
      trying buffer (
          greeting (record { entry = entry; message = message; size = size; type = type })
            iv_bytes),
    )

  -- What follows a `send_pkt` that has returned. After the handshake it is the padding, the
  -- encryption and the loop that makes the fragments, under the context as it is then.
  unfoldable pub go_on : Job → (ℕ → List ℕ) → ℕ → Handler aes → Option (Handler aes × Stage)
  unfolding next_frame
  go_on (greeting o iv_bytes) stale gap h = do
    padded ← pad o.message o.size
    let (cipher, ctx) = aes.ctr_xcrypt h.aes_ctx padded
    pkts ←
        fragments (type_code o.type) o.entry.id (u8 (raw_fragments (padded_size o.size))) cipher
          (padded_size o.size) (padded_size o.size) 0 0 stale
    let filled = push_all o.entry pkts h.messages
    stage ← next_frame o.entry gap (slot o.entry filled)
    some (record h { aes_ctx = ctx; messages = touch o.entry filled }, stage)
  go_on (transmitting entry pkts) stale gap h = do
    stage ← next_frame entry gap pkts
    some (h, stage)

module _ {aes : Aes} (link : Link) where
  -- The next step of a thread that is in `send`.
  unfoldable pub send_step :
      (ℕ → List ℕ)
      → ℕ
      → Handler aes × link.Radio × Stage
      → Option (Handler aes × link.Radio × Stage)
  unfolding go_on
  send_step stale gap (h, radio, idle) = none
  send_step stale gap (h, radio, trying buffer job) =
      let attempt = link.send buffer radio in some (h, attempt.1, waiting buffer attempt.0 job)
  send_step stale gap (h, radio, waiting buffer true job) =
      some (h, link.sleep 50 radio, resting job)
  send_step stale gap (h, radio, waiting buffer false job) =
      some (h, link.sleep 50 radio, trying buffer job)
  send_step stale gap (h, radio, resting job) = do
    (next, stage) ← go_on job stale gap h
    some (next, link.sleep 50 radio, stage)

  -- Steps of the thread with none of another thread between them; `stale` is the payload of the
  -- packets that a step makes, before it is written.
  pub data Alone
      : Handler aes × link.Radio × Stage → Handler aes × link.Radio × Stage → Type 0 where
    returned : (s : Handler aes × link.Radio × Stage) → Alone s s
    stepped :
        (stale : ℕ → List ℕ) (gap : ℕ) (s t u : Handler aes × link.Radio × Stage)
        → IsStale stale
        → send_step stale gap s ≡ some t
        → Alone t u
        → Alone s u
