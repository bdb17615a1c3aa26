-- ===== src/Main/System/Requests.antt =====
-- A request, and an interrupt, that no other thread comes between, as a run of the system.
use hydro_lo_ra_shield.Base.{◌+◌, sym, ◌∙◌, true, false, refl, ◌≡◌, some, ℕ, ◌≡◌, List, some}
use hydro_lo_ra_shield.Base.Fault.{Returns->>=, Returns-weaken, Returns_lem}
use hydro_lo_ra_shield.Aes.{Aes}
use hydro_lo_ra_shield.Spi.{Spi}
use hydro_lo_ra_shield.Lora.{Device}
use hydro_lo_ra_shield.Packet.{packet_max_size}
use hydro_lo_ra_shield.Handler.Receive.{receive}
use hydro_lo_ra_shield.Lora.Radio.{
  radio, end_transmission, end_transmission-mode, irq_handle_task_lem,
}
use hydro_lo_ra_shield.Handler.{Handler}
use hydro_lo_ra_shield.Handler.Send.{send}
use hydro_lo_ra_shield.Handler.Send.Fragments.{IsStale}
use hydro_lo_ra_shield.Handler.Send.Steps.{Stage, idle, Alone, returned, stepped}
use hydro_lo_ra_shield.Handler.Send.Steps.Uninterrupted.{SendsAlone, send-Alone}
use hydro_lo_ra_shield.Interface.{on_data}
use hydro_lo_ra_shield.UnixSocket.{Os}
use hydro_lo_ra_shield.Main.System.{
  request, begin_request, sending, IsMessage, IsMemory, interrupt, take, raise, raised, took,
  System, requested, sent_on, Reach, here, next,
}

module _ {aes : Aes} {spi : Spi} (fresh : ℕ → List ℕ) where
  -- `sending` over the class `LoRa`.
  abbrev DeviceAlone : Handler aes × Device spi × Stage → Handler aes × Device spi × Stage → Type 0
  unfolding radio
  DeviceAlone s t = Alone (radio spi fresh) s t

module _ {aes : Aes} {spi : Spi} {os : Os} (fresh : ℕ → List ℕ) where
  -- The system with the parts that a step of `send` changes.
  abbrev with_sending : System aes spi os → Handler aes × Device spi × Stage → System aes spi os
  with_sending base (h, d, stage) = record base { handler = h; lora = d; sender = stage }

  Alone-Reach :
      (start base : System aes spi os) (s t : Handler aes × Device spi × Stage)
      → DeviceAlone fresh s t
      → Reach fresh start (with_sending base s)
      → Reach fresh start (with_sending base t)
  unfolding sending radio
  Alone-Reach start base s t (returned s') r = r
  Alone-Reach start base s t (stepped stale gap s' m t' rooms e run) r =
      Alone-Reach start base m t' run (
        next start (with_sending base s') (with_sending base m) r
          (sent_on stale gap (with_sending base s') m.0 m.1 m.2 rooms e))

  -- A message of a client, of 1 to 256 bytes, with no other thread in between: when the request as
  -- a whole returns, the system gets from its state, where the socket's thread is not in `send`, by
  -- steps to the state that the request leaves.
  pub request-Reach :
      (message : List ℕ) (rands : ℕ → ℕ) (now : ℕ) (stale : ℕ → List ℕ) (gaps : ℕ → ℕ) (fuel : ℕ)
      (s : System aes spi os) (h : Handler aes) (d : Device spi)
      → IsMessage message
      → IsStale stale
      → s.sender ≡ idle
      → request fresh message rands now stale gaps fuel s.handler s.lora ≡ some (h, d)
      → Reach fresh s (record s { handler = h; lora = d; sender = idle })
  unfolding request begin_request radio
  request-Reach message rands now stale gaps fuel s h d read rooms free e =
      Returns_lem Done (request fresh message rands now stale gaps fuel s.handler s.lora)
        (Returns->>= Done (on_data message) _ (λ r f.
          Returns-weaken
            (SendsAlone (radio spi fresh) rands now stale gaps fuel r.bytes r.size r.type s.handler
              s.lora rooms)
            Done
            (send (radio spi fresh) rands now stale gaps fuel r.bytes r.size r.type s.handler
              s.lora)
            (send-Alone (radio spi fresh) rands now stale gaps fuel r.bytes r.size r.type s.handler
              s.lora rooms)
            (λ (last, after) (begun, stage, started, run).
              Alone-Reach s s (begun, s.lora, stage) (last, after, idle) run
                (next s s (with_sending s (begun, s.lora, stage)) (here s) (
                  requested message rands now (stale 0) (gaps 0) s begun stage read (rooms 0) free
                    (rw f started))))))
        e
    where
      Done : Handler aes × Device spi → Type 0
      Done (last, after) = Reach fresh s (with_sending s (last, after, idle))

  -- The same of an interrupt.
  pub interrupt-Reach :
      (rx payload : List ℕ) (junk : ℕ) (s : System aes spi os) (h : Handler aes) (d : Device spi)
      → IsMemory (packet_max_size + 9) rx
      → IsMemory packet_max_size payload
      → s.in_interrupt ≡ false
      → interrupt fresh rx payload junk s.handler s.lora ≡ some (h, d)
      → Reach fresh s (record s { handler = h; lora = d; in_interrupt = false })
  unfolding interrupt take raise radio
  interrupt-Reach rx payload junk s h d stack room free e =
      let ended : Device spi = end_transmission spi s.lora.mode s.lora in
      let raised_system : System aes spi os = record s { lora = ended; in_interrupt = true } in
      next s raised_system _
        (next s s raised_system (here s) (
          raised s ended true free
            (rw (end_transmission-mode spi s.lora.mode s.lora refl, raise) refl)))
        (took rx payload junk raised_system h d stack room refl (
          sym (
            irq_handle_task_lem spi (λ r. receive (radio spi fresh) rx payload junk s.handler r)
              s.handler s.lora)
          ∙ e))
