-- ===== src/Main/System/Replaced.antt =====
-- What happens when a handshake of the other side is polled while our own is being sent.
use mathlib.Core.Path.{subst}
use hydro_lo_ra_shield.Base.{ℕ, ◌≤◌, ◌≡◌, refl, sym, List, [], ◌∷◌, some, length}
use hydro_lo_ra_shield.Packet.{Packet, content}
use hydro_lo_ra_shield.Endian.{u32_to_bytes}
use hydro_lo_ra_shield.Endian.Laws.{WholeWords, reverse_words}
use hydro_lo_ra_shield.Entries.{slot}
use hydro_lo_ra_shield.Aes.{Aes, AesLaws}
use hydro_lo_ra_shield.Spi.{Spi}
use hydro_lo_ra_shield.Handler.{Handler, aes_key, unexpired, clean}
use hydro_lo_ra_shield.Handler.Receive.{incoming}
use hydro_lo_ra_shield.Handler.Poll.{poll}
use hydro_lo_ra_shield.Handler.Poll.Vector.{IsOpening, with_vector, poll-encryp}
use hydro_lo_ra_shield.Handler.Send.Fragments.{IsStale}
use hydro_lo_ra_shield.Handler.Send.Steps.{Outgoing, greeting, resting}
use hydro_lo_ra_shield.Exchange.Continued.{IsOutgoing, IsContinued}
use hydro_lo_ra_shield.UnixSocket.{Os}
use hydro_lo_ra_shield.Main.{forward_all, house_keeping}
use hydro_lo_ra_shield.Main.System.{KeepsSent, System, Step, kept_house}
use hydro_lo_ra_shield.Main.System.Vectors.{continued}

module _ {aes : Aes} {spi : Spi} {os : Os} (laws : AesLaws aes) (fresh : ℕ → List ℕ)
    (dangling : ℕ → ℕ) (now : ℕ) (t : System aes spi os) (id : ℕ) (p : Packet) (iv vector : List ℕ)
    (whole : WholeWords vector) (size : length vector ≡ 16) (iv_size : length t.handler.iv ≡ 16)
    (keyed : t.handler.aes_ctx ≡ aes.init_ctx_iv (u32_to_bytes aes_key) iv) (opens : IsOpening p)
    (carried : content p ≡ vector) (only : t.handler.received ≡ (incoming id, p ∷ []) ∷ [])
    (reused : dangling 0 ≤ 16) where
  abbrev replaced : Handler aes
  replaced =
      record (with_vector laws (dangling 0) t.handler (u32_to_bytes aes_key) iv vector whole size
        iv_size keyed) { received = [] }

  poll-replaced : poll dangling t.handler ≡ some (replaced, [])
  poll-replaced =
      poll-encryp laws dangling t.handler (u32_to_bytes aes_key) iv vector whole size iv_size keyed
        (incoming id) p only opens carried reused

  house_keeping-replaced :
      house_keeping dangling now t.handler t.server ≡ some (clean now replaced, t.server)
  unfolding house_keeping forward_all
  house_keeping-replaced = rw poll-replaced refl

  -- While `send` is in the last sleep of its handshake, for which it made `iv_bytes`, under a
  -- context with the program's key: a round of the housekeeping thread that finds a handshake of the
  -- other side complete, as the only entry of `received` and with anything in its checksum field,
  -- takes over its vector, and the next step of `send` encrypts the message under that vector, each
  -- word reversed, whatever `iv_bytes` is. (The length that `poll` reads from the freed packet is at
  -- most 16, the message is one that the handler carries, and its key is new.)
  pub vector_replaced :
      (o : Outgoing) (iv_bytes : List ℕ) (stale : ℕ → List ℕ) (gap : ℕ)
      → t.sender ≡ resting (greeting o iv_bytes)
      → IsOutgoing o
      → IsStale stale
      → slot o.entry (unexpired now t.handler.messages) ≡ []
      → (u : System aes spi os) × (v : System aes spi os) × Step fresh t u
        × Step fresh u v
        × IsContinued aes o gap
            (aes.init_ctx_iv (u32_to_bytes aes_key) (reverse_words vector))
            v.sender
  unfolding clean
  vector_replaced o iv_bytes stale gap at ok rooms new =
      let u : System aes spi os = record t { handler = clean now replaced } in
      let keeps : KeepsSent now t.sender = subst (KeepsSent now) (sym at) tt in
      let (v, step, made) = continued fresh laws u o iv_bytes stale gap at ok rooms new in
      (
        u,
        v,
        kept_house dangling now t (clean now replaced) t.server keeps house_keeping-replaced,
        step,
        made,
      )
