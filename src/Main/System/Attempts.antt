-- ===== src/Main/System/Attempts.antt =====
-- What the threads do between two calls of `lora->send`, the first of which was refused: the frame
-- stays the same.
use mathlib.Core.Path.{subst}
use hydro_lo_ra_shield.Base.{ℕ, ◌≡◌, refl, true, false, List, some}
use hydro_lo_ra_shield.Base.Fault.{Returns, Returns_lem}
use hydro_lo_ra_shield.Aes.{Aes}
use hydro_lo_ra_shield.Spi.{Spi}
use hydro_lo_ra_shield.Lora.{Device}
use hydro_lo_ra_shield.Lora.Radio.{radio, try_send}
use hydro_lo_ra_shield.Handler.{Handler}
use hydro_lo_ra_shield.Handler.Send.Steps.{Job, Stage, idle, trying, waiting, resting, send_step}
use hydro_lo_ra_shield.UnixSocket.{Os}
use hydro_lo_ra_shield.Main.System.{
  sending, System, Step, raised, took, kept_house, requested, sent_on,
}

-- The thread's next step is not a call of `lora->send`.
abbrev pub IsAsleep : Stage → Type 0
IsAsleep idle = Unit
IsAsleep (trying buffer job) = ⊥
IsAsleep (waiting buffer succes job) = Unit
IsAsleep (resting job) = Unit

-- The frame is still to be sent, after an attempt that was refused.
abbrev pub IsRetrying : List ℕ → Job → Stage → Type 0
IsRetrying buffer job idle = ⊥
IsRetrying buffer job (trying frame later) = (frame ≡ buffer) × (later ≡ job)
IsRetrying buffer job (waiting frame true later) = ⊥
IsRetrying buffer job (waiting frame false later) = (frame ≡ buffer) × (later ≡ job)
IsRetrying buffer job (resting later) = ⊥

abbrev HasStage : {aes : Aes} {spi : Spi} → List ℕ → Job → Handler aes × Device spi × Stage → Type 0
HasStage buffer job r = IsRetrying buffer job r.2

sending-IsRetrying :
    {aes : Aes} {spi : Spi} (fresh stale : ℕ → List ℕ) (gap : ℕ) (buffer : List ℕ) (job : Job)
    (h : Handler aes) (d : Device spi) (stage : Stage)
    → IsAsleep stage
    → IsRetrying buffer job stage
    → Returns (HasStage buffer job) (sending fresh stale gap (h, d, stage))
unfolding sending send_step
sending-IsRetrying fresh stale gap buffer job h d idle asleep same = tt
sending-IsRetrying fresh stale gap buffer job h d (trying frame later) asleep same = absurd asleep
sending-IsRetrying fresh stale gap buffer job h d (waiting frame true later) asleep same =
    absurd same
sending-IsRetrying fresh stale gap buffer job h d (waiting frame false later) asleep same = same
sending-IsRetrying fresh stale gap buffer job h d (resting later) asleep same = absurd same

module _ {aes : Aes} {spi : Spi} {os : Os} (fresh : ℕ → List ℕ) where
  -- A step in which `lora->send` is not called.
  abbrev pub IsNoAttempt : {s t : System aes spi os} → Step fresh s t → Type 0
  IsNoAttempt (raised s d receives free e) = Unit
  IsNoAttempt (took rx payload junk s h d stack room inside e) = Unit
  IsNoAttempt (kept_house dangling now s h server keeps e) = Unit
  IsNoAttempt (requested message rands now stale gap s h stage read room free e) = Unit
  IsNoAttempt (sent_on stale gap s h d stage rooms e) = IsAsleep s.sender

  -- Steps of all threads, without a call of `lora->send`.
  pub data Between (s : System aes spi os) : System aes spi os → Type 0 where
    at_once : Between s s
    between :
        (t u : System aes spi os)
        → Between s t
        → (step : Step fresh t u) → IsNoAttempt step
        → Between s u

  Step-IsRetrying :
      {s t : System aes spi os} (buffer : List ℕ) (job : Job) (step : Step fresh s t)
      → IsNoAttempt step
      → IsRetrying buffer job s.sender
      → IsRetrying buffer job t.sender
  Step-IsRetrying buffer job (raised s d receives free e) calm same = same
  Step-IsRetrying buffer job (took rx payload junk s h d stack room inside e) calm same = same
  Step-IsRetrying buffer job (kept_house dangling now s h server keeps e) calm same = same
  Step-IsRetrying buffer job (requested message rands now stale gap s h stage read room free e) calm
        same =
      absurd (subst (IsRetrying buffer job) free same)
  Step-IsRetrying buffer job (sent_on stale gap s h d stage rooms e) calm same =
      Returns_lem (HasStage {aes = aes} {spi = spi} buffer job)
        (sending fresh stale gap (s.handler, s.lora, s.sender))
        (sending-IsRetrying fresh stale gap buffer job s.handler s.lora s.sender calm same) e

  pub Between-IsRetrying :
      {s t : System aes spi os} (buffer : List ℕ) (job : Job)
      → Between s t
      → IsRetrying buffer job s.sender
      → IsRetrying buffer job t.sender
  Between-IsRetrying buffer job at_once same = same
  Between-IsRetrying buffer job (between t u run step calm) same =
      Step-IsRetrying buffer job step calm (Between-IsRetrying buffer job run same)

  pub sending-trying :
      (stale : ℕ → List ℕ) (gap : ℕ) (s : System aes spi os) (buffer : List ℕ) (job : Job)
      → s.sender ≡ trying buffer job
      → sending fresh stale gap (s.handler, s.lora, s.sender)
        ≡ some (
          s.handler,
          (try_send spi buffer s.lora).1,
          waiting buffer (try_send spi buffer s.lora).0 job,
        )
  unfolding sending radio send_step
  sending-trying stale gap s buffer job at = rw (at, send_step) refl
