-- ===== src/Main/System/Progress.antt =====
-- `send` never faults, whatever the other threads do between its steps.
use mathlib.Core.Path.{subst}
use hydro_lo_ra_shield.Base.{ℕ, ◌≡◌, ◌≢◌, sym, List, [], some, All}
use hydro_lo_ra_shield.Base.Fault.{
  Returns, Returns->>=, Returns-then, Returns_lem, Succeeds, Succeeds_lem,
}
use hydro_lo_ra_shield.Padding.{Delivery}
use hydro_lo_ra_shield.Aes.{Aes, AesLaws}
use hydro_lo_ra_shield.Spi.{Spi}
use hydro_lo_ra_shield.Lora.{Device}
use hydro_lo_ra_shield.Lora.Radio.{radio}
use hydro_lo_ra_shield.Handler.{Handler, init, set_msg_callback}
use hydro_lo_ra_shield.Handler.Poll.{poll}
use hydro_lo_ra_shield.Handler.Context.{IsApart}
use hydro_lo_ra_shield.Handler.Invariant.Outgoing.{IsKept, HasSent, poll-HasSent, clean-IsKept}
use hydro_lo_ra_shield.Handler.Send.Fragments.{IsStale}
use hydro_lo_ra_shield.Handler.Send.Steps.{idle}
use hydro_lo_ra_shield.UnixSocket.{Os, Socket}
use hydro_lo_ra_shield.Main.{start_up, forward_all, house_keeping}
use hydro_lo_ra_shield.Main.System.{
  take, begin_request, sending, System, Step, raised, took, kept_house, requested, sent_on, Reach,
  here, next, started_up,
}
use hydro_lo_ra_shield.Main.System.Vectors.{take-IsApart}
use hydro_lo_ra_shield.Main.System.Sending.{
  IsStage, IsSound, IsSoundAt, begin_request-IsSound, send_step-IsSound, send_step-Returns,
}

module _ {aes : Aes} {os : Os} where
  -- The outgoing packets of a handler beside the socket.
  abbrev SocketKept : Handler aes × Socket os → Type 0
  SocketKept r = All IsKept r.0.messages

  house_keeping-IsKept :
      (dangling : ℕ → ℕ) (now : ℕ) (h : Handler aes) (s : Socket os)
      → All IsKept h.messages
      → Returns SocketKept (house_keeping dangling now h s)
  unfolding house_keeping
  house_keeping-IsKept dangling now h s kept =
      Returns-then (HasSent h.messages (List Delivery)) SocketKept (poll dangling h) _
        (poll-HasSent dangling h)
        (λ r same.
          Returns->>= SocketKept (forward_all r.1 s) _
            (λ told e. clean-IsKept now r.0 (subst (All IsKept) (sym same) kept)))

module _ {aes : Aes} {spi : Spi} {os : Os} (fresh : ℕ → List ℕ) (laws : AesLaws aes) where
  abbrev IsSoundSystem : System aes spi os → Type 0
  IsSoundSystem s = All IsKept s.handler.messages × IsStage s.sender

  -- The next step of `send` in a state like that.
  sending-IsSound :
      (stale : ℕ → List ℕ) (gap : ℕ) (s : System aes spi os)
      → s.sender ≢ idle
      → IsStale stale
      → IsSoundSystem s
      → Succeeds (IsSoundAt (Device spi)) (sending fresh stale gap (s.handler, s.lora, s.sender))
  unfolding sending radio
  sending-IsSound stale gap s busy rooms (kept, ok) =
      send_step-IsSound laws (radio spi fresh) stale gap s.handler s.lora s.sender busy ok rooms
        kept

  Step-IsSound : {s t : System aes spi os} → Step fresh s t → IsSoundSystem s → IsSoundSystem t
  unfolding sending radio
  Step-IsSound (raised s d receives free e) sound = sound
  Step-IsSound (took rx payload junk s h d stack room inside e) (kept, ok) = (
    subst (All IsKept)
        (sym
          (Returns_lem (IsApart s.handler (Device spi))
            (take fresh rx payload junk s.handler s.lora)
            (take-IsApart fresh rx payload junk s.handler s.lora) e).1)
        kept,
    ok,
  )
  Step-IsSound (kept_house dangling now s h server keeps e) (kept, ok) = (
    Returns_lem SocketKept (house_keeping dangling now s.handler s.server)
        (house_keeping-IsKept dangling now s.handler s.server kept) e,
    ok,
  )
  Step-IsSound (requested message rands now stale gap s h stage read room free e) (kept, ok) =
      Returns_lem IsSound (begin_request message rands now stale gap s.handler)
        (begin_request-IsSound message rands now stale gap s.handler read kept) e
  Step-IsSound (sent_on stale gap s h d stage rooms e) (kept, ok) =
      Returns_lem (IsSoundAt (Device spi)) (sending fresh stale gap (s.handler, s.lora, s.sender))
        (send_step-Returns laws (radio spi fresh) stale gap s.handler s.lora s.sender ok rooms kept)
        e

  Reach-IsSound : {s t : System aes spi os} → Reach fresh s t → IsSoundSystem s → IsSoundSystem t
  Reach-IsSound (here s) sound = sound
  Reach-IsSound (next s t u r step) sound = Step-IsSound step (Reach-IsSound r sound)

  -- In every state that the system gets into from its start, by interrupts, rounds of the
  -- housekeeping thread, messages of clients and steps of `send`, in any order: when the socket's
  -- thread is in `send`, its next step returns.
  pub started_up-sending :
      (s t : System aes spi os) (stale : ℕ → List ℕ) (gap : ℕ)
      → s.handler.messages ≡ []
      → s.sender ≡ idle
      → Reach fresh (started_up s) t
      → t.sender ≢ idle
      → IsStale stale
      → (u : System aes spi os) × Step fresh t u
        × (sending fresh stale gap (t.handler, t.lora, t.sender)
            ≡ some (u.handler, u.lora, u.sender))
  unfolding started_up start_up init set_msg_callback
  started_up-sending s t stale gap none_yet free run busy rooms =
      let sound : IsSoundSystem t =
        Reach-IsSound run (subst (All IsKept) (sym none_yet) tt, subst IsStage (sym free) tt) in
      let ((h, d, stage), e, good) =
        Succeeds_lem (IsSoundAt (Device spi))
          (sending fresh stale gap (t.handler, t.lora, t.sender))
          (sending-IsSound stale gap t busy rooms sound) in
      (record t { handler = h; lora = d; sender = stage }, sent_on stale gap t h d stage rooms e, e)
