-- ===== src/Main/System/Invariant.antt =====
-- What holds in every state that the system can get into.
use mathlib.Core.Path.{subst}
use hydro_lo_ra_shield.Base.{ℕ, ◌+◌, ◌≤◌, ◌≡◌, sym, List, [], some, All, length}
use hydro_lo_ra_shield.Base.Fault.{Returns, Returns->>=, Returns_lem, Succeeds_lem}
use hydro_lo_ra_shield.Packet.{packet_max_size}
use hydro_lo_ra_shield.Aes.{Aes, AesLaws}
use hydro_lo_ra_shield.Spi.{Spi}
use hydro_lo_ra_shield.Lora.{Device}
use hydro_lo_ra_shield.Lora.Radio.{radio}
use hydro_lo_ra_shield.Handler.{Handler, init, set_msg_callback}
use hydro_lo_ra_shield.Handler.Poll.{poll}
use hydro_lo_ra_shield.Handler.Invariant.{IsReceived, IsHandler, IsHandlerOf, clean-IsHandler}
use hydro_lo_ra_shield.Handler.Invariant.Receive.{HandsBytes, receive-IsHandler}
use hydro_lo_ra_shield.Handler.Invariant.Poll.{poll-IsHandler}
use hydro_lo_ra_shield.Handler.Invariant.Send.{
  IsHandlerAt, begin_send-IsHandler, send_step-IsHandler,
}
use hydro_lo_ra_shield.Handler.Send.Steps.{Stage}
use hydro_lo_ra_shield.Interface.{on_data}
use hydro_lo_ra_shield.UnixSocket.{Os, Socket}
use hydro_lo_ra_shield.Main.{start_up, forward_all, house_keeping}
use hydro_lo_ra_shield.Main.Returns.{IsLong, house_keeping-returns}
use hydro_lo_ra_shield.Main.System.{
  take, begin_request, sending, IsMemory, KeepsSent, System, Step, raised, took, kept_house,
  requested, sent_on, Reach, here, next, started_up,
}

-- The packet handler of an object that has just been made.
abbrev pub IsNew : {aes : Aes} → Handler aes → Type 0
IsNew h = (length h.iv ≡ 16) × (h.received ≡ [])

module _ {aes : Aes} where
  start_up-IsHandler : (h : Handler aes) → IsNew h → IsHandler (start_up h)
  unfolding start_up init set_msg_callback
  start_up-IsHandler h (size, empty) = record {
    vector_size = size;
    received_ok = subst IsReceived (sym empty) (tt, tt);
  }

module _ {aes : Aes} {os : Os} where
  house_keeping-IsHandler :
      (dangling : ℕ → ℕ) (now : ℕ) (h : Handler aes) (s : Socket os)
      → IsHandler h
      → Returns (IsHandlerOf (Socket os)) (house_keeping dangling now h s)
  unfolding house_keeping
  house_keeping-IsHandler dangling now h s ok =
      Returns->>= (IsHandlerOf (Socket os)) (poll dangling h) _ (λ r e.
        Returns->>= (IsHandlerOf (Socket os)) (forward_all r.1 s) _
          (λ told f. clean-IsHandler now r.0 (poll-IsHandler dangling h r.0 r.1 ok e)))

module _ {aes : Aes} where
  begin_request-IsHandler :
      (message : List ℕ) (rands : ℕ → ℕ) (now : ℕ) (stale : List ℕ) (gap : ℕ) (h : Handler aes)
      → IsHandler h
      → Returns (IsHandlerOf Stage) (begin_request message rands now stale gap h)
  unfolding begin_request
  begin_request-IsHandler message rands now stale gap h ok =
      Returns->>= (IsHandlerOf Stage) (on_data message) _
        (λ r e. begin_send-IsHandler rands now stale gap r.bytes r.size r.type h ok)

module _ {aes : Aes} {spi : Spi} (fresh : ℕ → List ℕ) where
  sending-IsHandler :
      (stale : ℕ → List ℕ) (gap : ℕ) (h : Handler aes) (d : Device spi) (stage : Stage)
      → IsHandler h
      → Returns (IsHandlerAt (Device spi)) (sending fresh stale gap (h, d, stage))
  unfolding sending radio
  sending-IsHandler stale gap h d stage ok =
      send_step-IsHandler (radio spi fresh) stale gap h d stage ok

  take-IsHandler :
      (rx payload : List ℕ) (junk : ℕ) (h : Handler aes) (d : Device spi)
      → HandsBytes (radio spi fresh)
      → IsMemory (packet_max_size + 9) rx
      → IsMemory packet_max_size payload
      → IsHandler h
      → Returns (IsHandlerOf (Device spi)) (take fresh rx payload junk h d)
  unfolding take radio
  take-IsHandler rx payload junk h d hands stack room ok =
      receive-IsHandler (radio spi fresh) rx payload junk h d hands room.0 room.1 stack.1 ok

module _ {aes : Aes} {spi : Spi} {os : Os} (fresh : ℕ → List ℕ)
    (hands : HandsBytes (radio spi fresh)) where
  Step-IsHandler :
      {s t : System aes spi os} → Step fresh s t → IsHandler s.handler → IsHandler t.handler
  Step-IsHandler (raised s d receives free e) ok = ok
  Step-IsHandler (took rx payload junk s h d stack room inside e) ok =
      Returns_lem (IsHandlerOf (Device spi)) (take fresh rx payload junk s.handler s.lora)
        (take-IsHandler fresh rx payload junk s.handler s.lora hands stack room ok) e
  Step-IsHandler (kept_house dangling now s h server keeps e) ok =
      Returns_lem (IsHandlerOf (Socket os)) (house_keeping dangling now s.handler s.server)
        (house_keeping-IsHandler dangling now s.handler s.server ok) e
  Step-IsHandler (requested message rands now stale gap s h stage read room free e) ok =
      Returns_lem (IsHandlerOf Stage) (begin_request message rands now stale gap s.handler)
        (begin_request-IsHandler message rands now stale gap s.handler ok) e
  Step-IsHandler (sent_on stale gap s h d stage rooms e) ok =
      Returns_lem (IsHandlerAt (Device spi)) (sending fresh stale gap (s.handler, s.lora, s.sender))
        (sending-IsHandler fresh stale gap s.handler s.lora s.sender ok) e

  Reach-IsHandler :
      {s t : System aes spi os} → Reach fresh s t → IsHandler s.handler → IsHandler t.handler
  Reach-IsHandler (here s) ok = ok
  Reach-IsHandler (next s t u r step) ok = Step-IsHandler step (Reach-IsHandler r ok)

  -- In every state that the system gets into from its start, by interrupts and rounds of the
  -- housekeeping thread, in any order, before, between and after the steps of `send` for the messages
  -- of clients, on a radio that hands over bytes: the vector has 16 bytes, and `received` has at most one entry for a message id, each of them not
  -- empty, with packets of that id that are within their limits.
  pub started_up-IsHandler :
      (s t : System aes spi os)
      → IsNew s.handler
      → Reach fresh (started_up s) t
      → IsHandler t.handler
  unfolding started_up
  started_up-IsHandler s t new r = Reach-IsHandler r (start_up-IsHandler s.handler new)

  -- In every such state the next round of the housekeeping thread returns, when each complete
  -- message in `received` carries at least 16 bytes, each length that `poll` reads from a freed
  -- packet is at most 16, and no packet that is being transmitted expires in it.
  pub started_up-house_keeping :
      (laws : AesLaws aes) (dangling : ℕ → ℕ) (now : ℕ) (s t : System aes spi os)
      → IsNew s.handler
      → Reach fresh (started_up s) t
      → ((i : ℕ) → dangling i ≤ 16)
      → KeepsSent now t.sender
      → All IsLong t.handler.received
      → (u : System aes spi os) × Step fresh t u
        × (house_keeping dangling now t.handler t.server ≡ some (u.handler, u.server))
  started_up-house_keeping laws dangling now s t new r reused keeps long =
      let ((h, server), e, any) = Succeeds_lem _ (house_keeping dangling now t.handler t.server) (
        house_keeping-returns laws dangling reused now t.handler t.server
          (started_up-IsHandler s t new r) long) in
      (record t { handler = h; server = server }, kept_house dangling now t h server keeps e, e)
