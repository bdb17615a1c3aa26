-- ===== src/Main/System.antt =====
-- main.cpp: the program as one system, in which the interrupt of the radio, the housekeeping thread
-- and the thread of the socket take turns. The handler of the interrupt has two steps: what it does
-- to the radio without its mutex, and `packetHandler.receive()`, which waits for the mutex. A round
-- of the housekeeping thread is one step. `send` for a message of a client has a step
-- for each call of the radio and each sleep; the next message waits for `phMutex`, until `send` has
-- returned. A step is there when its code returns.
pub mod Invariant
pub mod Requests
pub mod Vectors
pub mod Carried
pub mod Announced
pub mod Replaced
pub mod Sending
pub mod Progress
pub mod Attempts
pub mod Retries
use hydro_lo_ra_shield.Base.{
  ℕ, ◌+◌, ◌≤◌, ◌<◌, ◌≡◌, List, IsBytes, length, Option, some, Bool, true, false,
}
use hydro_lo_ra_shield.Base.Fault.{◌>>=◌}
use hydro_lo_ra_shield.Packet.{packet_max_size}
use hydro_lo_ra_shield.Aes.{Aes}
use hydro_lo_ra_shield.Spi.{Spi}
use hydro_lo_ra_shield.Lora.{Device, receiving, transmitting}
use hydro_lo_ra_shield.Lora.Radio.{radio, end_transmission, irq_handle_task}
use hydro_lo_ra_shield.Handler.{Handler}
use hydro_lo_ra_shield.Handler.Send.{send}
use hydro_lo_ra_shield.Handler.Send.Fragments.{IsStale}
use hydro_lo_ra_shield.Handler.Send.Steps.{
  Job, greeting, transmitting, Stage, idle, trying, waiting, resting, begin_send, send_step,
}
use hydro_lo_ra_shield.Handler.Receive.{receive}
use hydro_lo_ra_shield.Interface.{on_data}
use hydro_lo_ra_shield.UnixSocket.{Os, Socket}
use hydro_lo_ra_shield.Main.{start_up, house_keeping}

-- The global objects; where the thread of the socket is in `packetHandler.send`, and whether that of
-- the interrupts is before `packetHandler.receive()`.
pub record System (aes : Aes) (spi : Spi) (os : Os) : Type 0 where
  pub handler : Handler aes
  pub lora : Device spi
  pub server : Socket os
  pub sender : Stage
  pub in_interrupt : Bool

-- The bytes of a packet's payload, or of the buffer on the stack, before they are written.
abbrev pub IsMemory : ℕ → List ℕ → Type 0
IsMemory n bytes = (length bytes ≡ n) × IsBytes bytes

-- What the socket's thread reads from a client: 1 to 256 bytes.
abbrev pub IsMessage : List ℕ → Type 0
IsMessage message = (0 < length message) × (length message ≤ 256) × IsBytes message

-- The system after the start of the packet handler.
unfoldable pub started_up :
    {aes : Aes} {spi : Spi} {os : Os} → System aes spi os → System aes spi os
unfolding start_up
started_up s = record s { handler = start_up s.handler }

-- `SX1276_IRQ_Handle_Task` up to `packetHandler.receive()`, and whether it gets there.
unfoldable pub raise : {spi : Spi} → Device spi → Device spi × Bool
unfolding end_transmission
raise {spi} d =
    let next = end_transmission spi d.mode d in
    (next, elim next.mode [ receiving ↦ true | transmitting ↦ false ])

module _ {aes : Aes} where
  -- `on_data`, up to the first call of the radio in `packetHandler.send`.
  unfoldable pub begin_request :
      List ℕ → (ℕ → ℕ) → ℕ → List ℕ → ℕ → Handler aes → Option (Handler aes × Stage)
  unfolding begin_send
  begin_request message rands now stale gap h = do
    r ← on_data message
    begin_send rands now stale gap r.bytes r.size r.type h

module _ {aes : Aes} {spi : Spi} (fresh : ℕ → List ℕ) where
  -- `SX1276_IRQ_Handle_Task` with `packetHandler.receive()` in it, when no other thread runs.
  unfoldable pub interrupt :
      List ℕ → List ℕ → ℕ → Handler aes → Device spi → Option (Handler aes × Device spi)
  unfolding radio irq_handle_task
  interrupt rx payload junk h d =
      irq_handle_task spi (λ r. receive (radio spi fresh) rx payload junk h r) h d

  -- `packetHandler.receive()`.
  unfoldable pub take :
      List ℕ → List ℕ → ℕ → Handler aes → Device spi → Option (Handler aes × Device spi)
  unfolding radio
  take rx payload junk h d = receive (radio spi fresh) rx payload junk h d

  -- `on_data`, with `packetHandler.send` at its end, when no other thread runs.
  unfoldable pub request :
      List ℕ
      → (ℕ → ℕ)
      → ℕ
      → (ℕ → List ℕ)
      → (ℕ → ℕ)
      → ℕ
      → Handler aes
      → Device spi
      → Option (Handler aes × Device spi)
  unfolding radio
  request message rands now stale gaps fuel h d = do
    r ← on_data message
    send (radio spi fresh) rands now stale gaps fuel r.bytes r.size r.type h d

  -- The next step of `packetHandler.send`.
  unfoldable pub sending :
      (ℕ → List ℕ)
      → ℕ
      → Handler aes × Device spi × Stage
      → Option (Handler aes × Device spi × Stage)
  unfolding radio send_step
  sending stale gap s = send_step (radio spi fresh) stale gap s

-- `clean` at the time `now` does not free a packet that is still to be transmitted: 10000 s have not
-- gone by since the message came.
abbrev KeepsPackets : ℕ → Job → Type 0
KeepsPackets now (greeting o iv_bytes) = Unit
KeepsPackets now (transmitting entry pkts) = now < entry.expiration

abbrev pub KeepsSent : ℕ → Stage → Type 0
KeepsSent now idle = Unit
KeepsSent now (trying buffer job) = KeepsPackets now job
KeepsSent now (waiting buffer succes job) = KeepsPackets now job
KeepsSent now (resting job) = KeepsPackets now job

module _ {aes : Aes} {spi : Spi} {os : Os} (fresh : ℕ → List ℕ) where
  pub data Step : System aes spi os → System aes spi os → Type 0 where
    -- An interrupt of the radio.
    raised :
        (s : System aes spi os) (d : Device spi) (receives : Bool)
        → s.in_interrupt ≡ false
        → raise s.lora ≡ (d, receives)
        → Step s (record s { lora = d; in_interrupt = receives })
    -- Its `receive`.
    took :
        (rx payload : List ℕ) (junk : ℕ) (s : System aes spi os) (h : Handler aes) (d : Device spi)
        → IsMemory (packet_max_size + 9) rx
        → IsMemory packet_max_size payload
        → s.in_interrupt ≡ true
        → take fresh rx payload junk s.handler s.lora ≡ some (h, d)
        → Step s (record s { handler = h; lora = d; in_interrupt = false })
    -- A round of the housekeeping thread.
    kept_house :
        (dangling : ℕ → ℕ) (now : ℕ) (s : System aes spi os) (h : Handler aes) (server : Socket os)
        → KeepsSent now s.sender
        → house_keeping dangling now s.handler s.server ≡ some (h, server)
        → Step s (record s { handler = h; server = server })
    -- A message of a client.
    requested :
        (message : List ℕ) (rands : ℕ → ℕ) (now : ℕ) (stale : List ℕ) (gap : ℕ)
        (s : System aes spi os) (h : Handler aes) (stage : Stage)
        → IsMessage message
        → IsMemory packet_max_size stale
        → s.sender ≡ idle
        → begin_request message rands now stale gap s.handler ≡ some (h, stage)
        → Step s (record s { handler = h; sender = stage })
    -- A step of `send`.
    sent_on :
        (stale : ℕ → List ℕ) (gap : ℕ) (s : System aes spi os) (h : Handler aes) (d : Device spi)
        (stage : Stage)
        → IsStale stale
        → sending fresh stale gap (s.handler, s.lora, s.sender) ≡ some (h, d, stage)
        → Step s (record s { handler = h; lora = d; sender = stage })

  pub data Reach : System aes spi os → System aes spi os → Type 0 where
    here : (s : System aes spi os) → Reach s s
    next : (s t u : System aes spi os) → Reach s t → Step t u → Reach s u
