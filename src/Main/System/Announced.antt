-- ===== src/Main/System/Announced.antt =====
-- The vector that the handshake frame carries is the one that the message is encrypted under.
use mathlib.Core.Path.{subst}
use hydro_lo_ra_shield.Base.{ℕ, ◌≡◌, refl, sym, ap, ◌∙◌, true, false, List, []}
use hydro_lo_ra_shield.Base.Fault.{Returns, Returns-then, Returns_lem}
use hydro_lo_ra_shield.Endian.{u32_to_bytes}
use hydro_lo_ra_shield.Entries.{slot}
use hydro_lo_ra_shield.Aes.{Aes, AesLaws}
use hydro_lo_ra_shield.Spi.{Spi}
use hydro_lo_ra_shield.Lora.{Device}
use hydro_lo_ra_shield.Handler.{Handler, aes_key}
use hydro_lo_ra_shield.Handler.Send.Fragments.{IsStale}
use hydro_lo_ra_shield.Handler.Send.Steps.{
  Outgoing, Job, greeting, Stage, idle, trying, waiting, resting, go_on, send_step,
}
use hydro_lo_ra_shield.Exchange.Continued.{IsOutgoing, IsContinued}
use hydro_lo_ra_shield.UnixSocket.{Os}
use hydro_lo_ra_shield.Main.System.{
  begin_request, sending, System, Step, raised, took, kept_house, requested, sent_on,
}
use hydro_lo_ra_shield.Main.System.Carried.{
  Announces, IsCarried, IsFinishing, IsNext, IsNext-IsCarried, IsNext-IsFinishing, go_on-IsNext,
  begin_request-IsCarried, begin_request-IsFinishing,
}
use hydro_lo_ra_shield.Main.System.Attempts.{IsAsleep, IsNoAttempt}
use hydro_lo_ra_shield.Main.System.Vectors.{
  QuietReach, quiet, quiet_then, QuietReach-append, under_its_vector,
}

module _ {aes : Aes} {spi : Spi} where
  -- The stage of `send`, beside the handler and the chip.
  abbrev AtStage : (Stage → Type 0) → Handler aes × Device spi × Stage → Type 0
  AtStage P r = P r.2

  sending-IsCarried :
      (fresh stale : ℕ → List ℕ) (gap : ℕ) (h : Handler aes) (d : Device spi) (stage : Stage)
      → IsCarried stage
      → Returns (AtStage IsCarried) (sending fresh stale gap (h, d, stage))
  unfolding sending send_step
  sending-IsCarried fresh stale gap h d idle c = tt
  sending-IsCarried fresh stale gap h d (trying buffer job) c = c
  sending-IsCarried fresh stale gap h d (waiting buffer true job) c = tt
  sending-IsCarried fresh stale gap h d (waiting buffer false job) c = c
  sending-IsCarried fresh stale gap h d (resting job) c =
      Returns-then (λ (r : Handler aes × Stage). IsNext r.1) (AtStage IsCarried)
        (go_on job stale gap h) _ (go_on-IsNext job stale gap h)
        (λ r next. IsNext-IsCarried r.1 next)

  sending-IsFinishing :
      (first : Job) (fresh stale : ℕ → List ℕ) (gap : ℕ) (h : Handler aes) (d : Device spi)
      (stage : Stage)
      → IsAsleep stage
      → IsFinishing first stage
      → Returns (AtStage (IsFinishing first)) (sending fresh stale gap (h, d, stage))
  unfolding sending send_step
  sending-IsFinishing first fresh stale gap h d idle asleep c = tt
  sending-IsFinishing first fresh stale gap h d (trying buffer job) asleep c = absurd asleep
  sending-IsFinishing first fresh stale gap h d (waiting buffer true job) asleep c = c
  sending-IsFinishing first fresh stale gap h d (waiting buffer false job) asleep c = absurd c
  sending-IsFinishing first fresh stale gap h d (resting job) asleep c =
      Returns-then (λ (r : Handler aes × Stage). IsNext r.1) (AtStage (IsFinishing first))
        (go_on job stale gap h) _ (go_on-IsNext job stale gap h)
        (λ r next. IsNext-IsFinishing first r.1 next)

module _ {aes : Aes} {spi : Spi} {os : Os} (fresh : ℕ → List ℕ) where
  Step-IsCarried :
      {s t : System aes spi os} → Step fresh s t → IsCarried s.sender → IsCarried t.sender
  Step-IsCarried (raised s d receives free e) c = c
  Step-IsCarried (took rx payload junk s h d stack room inside e) c = c
  Step-IsCarried (kept_house dangling now s h server keeps e) c = c
  Step-IsCarried (requested message rands now stale gap s h stage read room free e) c =
      Returns_lem (λ (r : Handler aes × Stage). IsCarried r.1)
        (begin_request message rands now stale gap s.handler)
        (begin_request-IsCarried message rands now stale gap s.handler room.0 room.1) e
  Step-IsCarried (sent_on stale gap s h d stage rooms e) c =
      Returns_lem (AtStage {aes = aes} {spi = spi} IsCarried)
        (sending fresh stale gap (s.handler, s.lora, s.sender))
        (sending-IsCarried fresh stale gap s.handler s.lora s.sender c) e

  QuietReach-IsCarried :
      {s t : System aes spi os} → QuietReach fresh s t → IsCarried s.sender → IsCarried t.sender
  QuietReach-IsCarried quiet c = c
  QuietReach-IsCarried (quiet_then t u r step calm) c =
      Step-IsCarried step (QuietReach-IsCarried r c)

  -- `lora->send` is not called in the run.
  abbrev pub NoAttempts : {s t : System aes spi os} → QuietReach fresh s t → Type 0
  NoAttempts quiet = Unit
  NoAttempts (quiet_then t u r step calm) = IsNoAttempt fresh step × NoAttempts r

  Step-IsFinishing :
      {s t : System aes spi os} (job : Job) (step : Step fresh s t)
      → IsNoAttempt fresh step
      → IsFinishing job s.sender
      → IsFinishing job t.sender
  Step-IsFinishing job (raised s d receives free e) asleep c = c
  Step-IsFinishing job (took rx payload junk s h d stack room inside e) asleep c = c
  Step-IsFinishing job (kept_house dangling now s h server keeps e) asleep c = c
  Step-IsFinishing job (requested message rands now stale gap s h stage read room free e) asleep c =
      Returns_lem (λ (r : Handler aes × Stage). IsFinishing job r.1)
        (begin_request message rands now stale gap s.handler)
        (begin_request-IsFinishing job message rands now stale gap s.handler) e
  Step-IsFinishing job (sent_on stale gap s h d stage rooms e) asleep c =
      Returns_lem (AtStage {aes = aes} {spi = spi} (IsFinishing job))
        (sending fresh stale gap (s.handler, s.lora, s.sender))
        (sending-IsFinishing job fresh stale gap s.handler s.lora s.sender asleep c) e

  QuietReach-IsFinishing :
      {s t : System aes spi os} (job : Job) (run : QuietReach fresh s t)
      → NoAttempts run
      → IsFinishing job s.sender
      → IsFinishing job t.sender
  QuietReach-IsFinishing job quiet asleep c = c
  QuietReach-IsFinishing job (quiet_then t u r step calm) asleep c =
      Step-IsFinishing job step asleep.0 (QuietReach-IsFinishing job r asleep.1 c)

  -- A run from a state outside `send`, in which no round of the housekeeping thread finds a complete
  -- message while a handshake is being sent, whatever else the threads do: when the radio has
  -- accepted a handshake, its frame is a packet of type ENCRYP with the message's id. When, without
  -- a further call of `lora->send`, `send` is then in the last sleep of a `send_pkt`, its next step
  -- encrypts the message under the program's key and the bytes that this packet carries, and has
  -- the fragments, numbered from 0, to transmit. The message is one that the handler carries, and its
  -- key is new.
  pub encrypted_as_announced :
      (laws : AesLaws aes) (s t u : System aes spi os) (frame : List ℕ) (o : Outgoing)
      (iv_bytes : List ℕ) (job : Job) (stale : ℕ → List ℕ) (gap : ℕ)
      → s.sender ≡ idle
      → QuietReach fresh s t
      → t.sender ≡ waiting frame true (greeting o iv_bytes)
      → (run : QuietReach fresh t u) → NoAttempts run
      → u.sender ≡ resting job
      → IsOutgoing o
      → IsStale stale
      → slot o.entry u.handler.messages ≡ []
      → (vector : List ℕ) × Announces frame o vector
        × (v : System aes spi os) × Step fresh u v
        × IsContinued aes o gap (aes.init_ctx_iv (u32_to_bytes aes_key) vector) v.sender
  encrypted_as_announced laws s t u frame o iv_bytes job stale gap free before accepted run asleep
        at ok rooms new =
      let announced : Announces frame o iv_bytes =
        subst IsCarried accepted (QuietReach-IsCarried before (subst IsCarried (sym free) tt)) in
      let same : job ≡ greeting o iv_bytes = subst (IsFinishing (greeting o iv_bytes)) at (
        QuietReach-IsFinishing (greeting o iv_bytes) run asleep
          (subst (IsFinishing (greeting o iv_bytes)) (sym accepted) refl)) in
      let (v, step, made) =
        under_its_vector fresh laws s u o iv_bytes stale gap free
          (QuietReach-append fresh before run) (at ∙ ap resting same) ok rooms new in
      (iv_bytes, announced, v, step, made)
