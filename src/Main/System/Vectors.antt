-- ===== src/Main/System/Vectors.antt =====
-- Under which vector a message is encrypted, when other threads run while its handshake is sent.
use mathlib.Core.Path.{subst}
use hydro_lo_ra_shield.Base.{ℕ, ◌≡◌, refl, sym, ◌∙◌, List, [], some, All, u8}
use hydro_lo_ra_shield.Base.Fault.{Returns, Returns->>=, Returns_lem}
use hydro_lo_ra_shield.Packet.Wire.{encode}
use hydro_lo_ra_shield.Endian.{u32_to_bytes}
use hydro_lo_ra_shield.Entries.{Messages, slot}
use hydro_lo_ra_shield.Aes.{Aes, AesLaws}
use hydro_lo_ra_shield.Spi.{Spi}
use hydro_lo_ra_shield.Lora.{Device}
use hydro_lo_ra_shield.Lora.Radio.{wait, radio}
use hydro_lo_ra_shield.Handler.{Handler, aes_key, clean}
use hydro_lo_ra_shield.Handler.Poll.{poll}
use hydro_lo_ra_shield.Handler.Send.{handshake_packet}
use hydro_lo_ra_shield.Handler.Send.Steps.{
  Outgoing, Job, greeting, transmitting, Stage, idle, trying, waiting, resting, begin_send,
  send_step,
}
use hydro_lo_ra_shield.Handler.Context.{
  IsPending, HasCtx, IsApart, receive-IsApart, poll_entries-pending,
}
use hydro_lo_ra_shield.Handler.Send.Steps.Keyed.{IsAnnounced, IsKeyed, send_step-IsKeyed}
use hydro_lo_ra_shield.Handler.Send.Fragments.{IsStale}
use hydro_lo_ra_shield.Exchange.Continued.{IsOutgoing, IsContinued, go_on-IsContinued}
use hydro_lo_ra_shield.Interface.{on_data}
use hydro_lo_ra_shield.UnixSocket.{Os, Socket}
use hydro_lo_ra_shield.Main.{forward_all, house_keeping}
use hydro_lo_ra_shield.Main.System.{
  take, begin_request, sending, System, Step, raised, took, kept_house, requested, sent_on,
}

-- No message in `received` is complete, while a handshake is being sent.
abbrev HoldsJob : Messages → Job → Type 0
HoldsJob received (greeting o iv_bytes) = All IsPending received
HoldsJob received (transmitting entry pkts) = Unit

abbrev pub HoldsBack : Messages → Stage → Type 0
HoldsBack received idle = Unit
HoldsBack received (trying buffer job) = HoldsJob received job
HoldsBack received (waiting buffer succes job) = HoldsJob received job
HoldsBack received (resting job) = HoldsJob received job

module _ {aes : Aes} where
  house_keeping-HasCtx :
      {os : Os} (dangling : ℕ → ℕ) (now : ℕ) (h : Handler aes) (s : Socket os)
      → All IsPending h.received
      → Returns (HasCtx h.aes_ctx (Socket os)) (house_keeping dangling now h s)
  unfolding house_keeping poll forward_all clean
  house_keeping-HasCtx dangling now h s held =
      rw (poll_entries-pending dangling h.received h held, Returns, house_keeping) refl

  kept-IsKeyed :
      (stage : Stage) (h last : Handler aes)
      → (All IsPending h.received → last.aes_ctx ≡ h.aes_ctx)
      → HoldsBack h.received stage
      → IsKeyed aes h.aes_ctx stage
      → IsKeyed aes last.aes_ctx stage
  kept-IsKeyed stage h last same held keyed = by_stage stage held keyed
    where
      by_job :
          (job : Job)
          → HoldsJob h.received job
          → IsAnnounced aes h.aes_ctx job
          → IsAnnounced aes last.aes_ctx job
      by_job (greeting o iv_bytes) held' keyed' = same held' ∙ keyed'
      by_job (transmitting entry pkts) held' keyed' = tt

      by_stage :
          (now : Stage)
          → HoldsBack h.received now
          → IsKeyed aes h.aes_ctx now
          → IsKeyed aes last.aes_ctx now
      by_stage idle held' keyed' = tt
      by_stage (trying buffer job) held' keyed' = by_job job held' keyed'
      by_stage (waiting buffer succes job) held' keyed' = by_job job held' keyed'
      by_stage (resting job) held' keyed' = by_job job held' keyed'

  begin_request-IsKeyed :
      (message : List ℕ) (rands : ℕ → ℕ) (now : ℕ) (stale : List ℕ) (gap : ℕ) (h : Handler aes)
      → Returns (λ r. IsKeyed aes r.0.aes_ctx r.1) (begin_request message rands now stale gap h)
  unfolding begin_request begin_send
  begin_request-IsKeyed message rands now stale gap h =
      let Keyed : Handler aes × Stage → Type 0 = λ r. IsKeyed aes r.0.aes_ctx r.1 in
      Returns->>= Keyed (on_data message) _ (λ r e.
        Returns->>= Keyed (handshake_packet (u8 (rands 0)) _ stale) _
          (λ pkt f. Returns->>= Keyed (encode gap pkt) _ (λ buffer g. refl)))

module _ {aes : Aes} {spi : Spi} (fresh : ℕ → List ℕ) where
  pub take-IsApart :
      (rx payload : List ℕ) (junk : ℕ) (h : Handler aes) (d : Device spi)
      → Returns (IsApart h (Device spi)) (take fresh rx payload junk h d)
  unfolding take radio
  take-IsApart rx payload junk h d = receive-IsApart (radio spi fresh) rx payload junk h d

module _ {aes : Aes} {spi : Spi} {os : Os} (fresh : ℕ → List ℕ) where
  -- A step that is no round of the housekeeping thread which, while a handshake is being sent, finds
  -- a complete message in `received`.
  abbrev pub IsQuiet : {s t : System aes spi os} → Step fresh s t → Type 0
  IsQuiet (raised s d receives free e) = Unit
  IsQuiet (took rx payload junk s h d stack room inside e) = Unit
  IsQuiet (kept_house dangling now s h server keeps e) = HoldsBack s.handler.received s.sender
  IsQuiet (requested message rands now stale gap s h stage read room free e) = Unit
  IsQuiet (sent_on stale gap s h d stage rooms e) = Unit

  pub data QuietReach (s : System aes spi os) : System aes spi os → Type 0 where
    quiet : QuietReach s s
    quiet_then :
        (t u : System aes spi os)
        → QuietReach s t
        → (step : Step fresh t u) → IsQuiet step
        → QuietReach s u

  -- The context fits the handshake that is being sent.
  abbrev IsKeyedSystem : System aes spi os → Type 0
  IsKeyedSystem s = IsKeyed aes s.handler.aes_ctx s.sender

  Step-IsKeyed :
      {s t : System aes spi os} (step : Step fresh s t)
      → IsQuiet step
      → IsKeyedSystem s
      → IsKeyedSystem t
  unfolding sending radio
  Step-IsKeyed (raised s d receives free e) calm keyed = keyed
  Step-IsKeyed (took rx payload junk s h d stack room inside e) calm keyed =
      subst (λ ctx. IsKeyed aes ctx s.sender)
        (sym
          (Returns_lem (IsApart s.handler (Device spi))
            (take fresh rx payload junk s.handler s.lora)
            (take-IsApart fresh rx payload junk s.handler s.lora) e).0)
        keyed
  Step-IsKeyed (kept_house dangling now s h server keeps e) calm keyed =
      kept-IsKeyed s.sender s.handler h
        (λ held.
          Returns_lem (HasCtx s.handler.aes_ctx (Socket os))
            (house_keeping dangling now s.handler s.server)
            (house_keeping-HasCtx dangling now s.handler s.server held) e)
        calm keyed
  Step-IsKeyed (requested message rands now stale gap s h stage read room free e) calm keyed =
      Returns_lem (λ (r : Handler aes × Stage). IsKeyed aes r.0.aes_ctx r.1)
        (begin_request message rands now stale gap s.handler)
        (begin_request-IsKeyed message rands now stale gap s.handler) e
  Step-IsKeyed (sent_on stale gap s h d stage rooms e) calm keyed =
      Returns_lem (λ (r : Handler aes × Device spi × Stage). IsKeyed aes r.0.aes_ctx r.2)
        (sending fresh stale gap (s.handler, s.lora, s.sender))
        (send_step-IsKeyed (radio spi fresh) stale gap s.handler s.lora s.sender keyed) e

  QuietReach-IsKeyed :
      {s t : System aes spi os} → QuietReach s t → IsKeyedSystem s → IsKeyedSystem t
  QuietReach-IsKeyed quiet keyed = keyed
  QuietReach-IsKeyed (quiet_then t u r step calm) keyed =
      Step-IsKeyed step calm (QuietReach-IsKeyed r keyed)

  -- The step after the handshake.
  pub continued :
      (laws : AesLaws aes) (t : System aes spi os) (o : Outgoing) (iv_bytes : List ℕ)
      (stale : ℕ → List ℕ) (gap : ℕ)
      → t.sender ≡ resting (greeting o iv_bytes)
      → IsOutgoing o
      → IsStale stale
      → slot o.entry t.handler.messages ≡ []
      → (u : System aes spi os) × Step fresh t u × IsContinued aes o gap t.handler.aes_ctx u.sender
  unfolding sending send_step radio
  continued laws t o iv_bytes stale gap at ok rooms new =
      let (last, stage, went, made) =
        go_on-IsContinued laws o iv_bytes stale gap t.handler ok rooms new in
      let slept : Device spi = wait spi 50 t.lora in
      (
        record t { handler = last; lora = slept; sender = stage },
        sent_on stale gap t last slept stage rooms (
            subst
              (λ now. sending fresh stale gap (t.handler, t.lora, now) ≡ some (last, slept, stage))
              (sym at) (rw went refl)),
        made,
      )

  -- At the end of the handshake, in a run like that, the next step encrypts under its vector.
  pub under_its_vector :
      (laws : AesLaws aes) (s t : System aes spi os) (o : Outgoing) (iv_bytes : List ℕ)
      (stale : ℕ → List ℕ) (gap : ℕ)
      → s.sender ≡ idle
      → QuietReach s t
      → t.sender ≡ resting (greeting o iv_bytes)
      → IsOutgoing o
      → IsStale stale
      → slot o.entry t.handler.messages ≡ []
      → (u : System aes spi os) × Step fresh t u
        × IsContinued aes o gap (aes.init_ctx_iv (u32_to_bytes aes_key) iv_bytes) u.sender
  under_its_vector laws s t o iv_bytes stale gap free run at ok rooms new =
      let (u, step, made) = continued laws t o iv_bytes stale gap at ok rooms new in
      let keyed : IsKeyedSystem t =
        QuietReach-IsKeyed run (subst (IsKeyed aes s.handler.aes_ctx) (sym free) tt) in
      let same : t.handler.aes_ctx ≡ aes.init_ctx_iv (u32_to_bytes aes_key) iv_bytes =
        subst (IsKeyed aes t.handler.aes_ctx) at keyed in
      (u, step, subst (λ ctx. IsContinued aes o gap ctx u.sender) same made)

  pub QuietReach-append :
      {s t u : System aes spi os} → QuietReach s t → QuietReach t u → QuietReach s u
  QuietReach-append first quiet = first
  QuietReach-append first (quiet_then t u r step calm) =
      quiet_then t u (QuietReach-append first r) step calm
