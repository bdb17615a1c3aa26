-- ===== src/Main/System/Retries.antt =====
-- A frame that the radio has refused is accepted at the next attempt, whatever the other threads do
-- in between.
use mathlib.Core.Path.{subst}
use hydro_lo_ra_shield.Base.{
  ℕ, ◌<◌, ◌≡◌, refl, ap, ap₂, ◌∙◌, true, false, not, ◌||◌, List, some, length, ◌==◌, if◌then◌else◌,
}
use hydro_lo_ra_shield.Base.Fault.{Returns, Returns->>=, Returns-then, Returns_lem}
use hydro_lo_ra_shield.Aes.{Aes}
use hydro_lo_ra_shield.Link.{Reception, lora_ok}
use hydro_lo_ra_shield.Spi.{Spi}
use hydro_lo_ra_shield.Driver.Transfer.{lora_receive_packet_blocking}
use hydro_lo_ra_shield.Driver.Transfer.Air.{TransmitLaws}
use hydro_lo_ra_shield.Driver.Transfer.Listening.{
  IsListening, HasListened, lora_receive_packet_blocking-IsListening,
}
use hydro_lo_ra_shield.Lora.{LoraMode, Device, receiving, transmitting}
use hydro_lo_ra_shield.Lora.Radio
use hydro_lo_ra_shield.Lora.Radio.{radio, try_send, wait, end_transmission}
use hydro_lo_ra_shield.Lora.Air.{set_receive_mode-mode, mode-refused, accepted-listening}
use hydro_lo_ra_shield.Handler.{Handler}
use hydro_lo_ra_shield.Handler.Receive.{receive, accept}
use hydro_lo_ra_shield.Handler.Send.Steps.{
  Job, Stage, idle, trying, waiting, resting, send_step, go_on,
}
use hydro_lo_ra_shield.Handler.Send.Fragments.{IsStale}
use hydro_lo_ra_shield.UnixSocket.{Os}
use hydro_lo_ra_shield.Main.System.{
  raise, take, sending, System, Step, raised, took, kept_house, requested, sent_on,
}
use hydro_lo_ra_shield.Main.System.Attempts.{
  IsAsleep, IsNoAttempt, Between, at_once, between, IsRetrying, Between-IsRetrying, sending-trying,
}

module _ {spi : Spi} (laws : TransmitLaws spi) where
  end_transmission-IsListening :
      (mode : LoraMode) (d : Device spi)
      → IsListening laws d.chip
      → IsListening laws (end_transmission spi mode d).chip
  unfolding end_transmission
  end_transmission-IsListening transmitting d on = set_receive_mode-mode laws d
  end_transmission-IsListening receiving d on = on

  receive-IsListening :
      (fresh : ℕ → List ℕ) (buffer : List ℕ) (timeout : ℕ) (d : Device spi)
      → IsListening laws d.chip
      → Returns
          (λ (r : Reception × Device spi). IsListening laws r.1.chip)
          (Radio.receive spi fresh buffer timeout d)
  unfolding Radio.receive
  receive-IsListening fresh buffer timeout d on =
      Returns-then (HasListened laws Reception)
        (λ (r : Reception × Device spi). IsListening laws r.1.chip)
        (lora_receive_packet_blocking spi fresh buffer timeout d.chip) _
        (lora_receive_packet_blocking-IsListening laws fresh buffer timeout d.chip on)
        (λ r listened. listened)

  -- A device in the receive mode, beside the handler; and with the stage of `send`.
  abbrev HasDevice : {aes : Aes} → Handler aes × Device spi → Type 0
  HasDevice r = IsListening laws r.1.chip

  abbrev HasDeviceAt : {aes : Aes} → Handler aes × Device spi × Stage → Type 0
  HasDeviceAt r = IsListening laws r.1.chip

  module _ {aes : Aes} (fresh : ℕ → List ℕ) where
    take-IsListening :
        (rx payload : List ℕ) (junk : ℕ) (h : Handler aes) (d : Device spi)
        → IsListening laws d.chip
        → Returns (HasDevice {aes = aes}) (take fresh rx payload junk h d)
    unfolding take radio receive
    take-IsListening rx payload junk h d on =
        Returns-then (λ (r : Reception × Device spi). IsListening laws r.1.chip)
          (HasDevice {aes = aes}) (Radio.receive spi fresh rx 500 d) _
          (receive-IsListening fresh rx 500 d on)
          (λ r listened.
            Returns->>= (HasDevice {aes = aes})
              (if r.0.received == 0 || not (r.0.error == lora_ok)
                then some h
                else accept payload junk r.0.buffer h)
              _ (λ accepted e. listened))

    sending-IsListening :
        (stale : ℕ → List ℕ) (gap : ℕ) (h : Handler aes) (d : Device spi) (stage : Stage)
        → IsAsleep stage
        → IsListening laws d.chip
        → Returns (HasDeviceAt {aes = aes}) (sending fresh stale gap (h, d, stage))
    unfolding sending radio send_step wait
    sending-IsListening stale gap h d idle asleep on = tt
    sending-IsListening stale gap h d (trying buffer job) asleep on = absurd asleep
    sending-IsListening stale gap h d (waiting buffer true job) asleep on =
        laws.mode-sleep 50 d.chip on
    sending-IsListening stale gap h d (waiting buffer false job) asleep on =
        laws.mode-sleep 50 d.chip on
    sending-IsListening stale gap h d (resting job) asleep on =
        Returns->>= (HasDeviceAt {aes = aes}) (go_on job stale gap h) _
          (λ r e. laws.mode-sleep 50 d.chip on)

module _ {aes : Aes} {spi : Spi} {os : Os} (fresh : ℕ → List ℕ) (laws : TransmitLaws spi) where
  Step-IsListening :
      {s t : System aes spi os} (step : Step fresh s t)
      → IsNoAttempt fresh step
      → IsListening laws s.lora.chip
      → IsListening laws t.lora.chip
  unfolding raise
  Step-IsListening (raised s d receives free e) calm on =
      subst (λ (x : Device spi). IsListening laws x.chip) (ap (λ r. r.0) e)
        (end_transmission-IsListening laws s.lora.mode s.lora on)
  Step-IsListening (took rx payload junk s h d stack room inside e) calm on =
      Returns_lem (HasDevice laws {aes = aes}) (take fresh rx payload junk s.handler s.lora)
        (take-IsListening laws fresh rx payload junk s.handler s.lora on) e
  Step-IsListening (kept_house dangling now s h server keeps e) calm on = on
  Step-IsListening (requested message rands now stale gap s h stage read room free e) calm on = on
  Step-IsListening (sent_on stale gap s h d stage rooms e) calm on =
      Returns_lem (HasDeviceAt laws {aes = aes})
        (sending fresh stale gap (s.handler, s.lora, s.sender))
        (sending-IsListening laws fresh stale gap s.handler s.lora s.sender calm on) e

  Between-IsListening :
      {s t : System aes spi os}
      → Between fresh s t
      → IsListening laws s.lora.chip
      → IsListening laws t.lora.chip
  Between-IsListening at_once on = on
  Between-IsListening (between t u run step calm) on =
      Step-IsListening step calm (Between-IsListening run on)

  -- The radio has refused a frame of at most 255 bytes. Whatever the threads have done since then,
  -- up to the next call of `lora->send`: that call is for the same frame, and is accepted.
  pub retried :
      (s t : System aes spi os) (buffer next : List ℕ) (job later : Job) (stale : ℕ → List ℕ)
      (gap : ℕ)
      → (try_send spi buffer s.lora).0 ≡ false
      → length buffer < 256
      → IsStale stale
      → Between fresh
          (record s { lora = (try_send spi buffer s.lora).1; sender = waiting buffer false job })
          t
      → t.sender ≡ trying next later
      → (u : System aes spi os) × Step fresh t u × (u.sender ≡ waiting buffer true job)
  retried s t buffer next job later stale gap refused small rooms run at =
      let on = Between-IsListening run (mode-refused laws buffer s.lora small refused) in
      let (frame_same, job_same) =
        subst (IsRetrying buffer job) at (Between-IsRetrying fresh buffer job run (refl, refl)) in
      let at_last = at ∙ ap₂ trying frame_same job_same in
      (
        record t {
          lora = (try_send spi buffer t.lora).1;
          sender = waiting buffer (try_send spi buffer t.lora).0 job;
        },
        sent_on stale gap t t.handler (try_send spi buffer t.lora).1
            (waiting buffer (try_send spi buffer t.lora).0 job) rooms
            (sending-trying fresh stale gap t buffer job at_last),
        ap (λ sent. waiting buffer sent job) (accepted-listening laws buffer t.lora small on),
      )
