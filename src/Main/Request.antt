-- ===== src/Main/Request.antt =====
-- A message of a client, from the socket's callback to the chip.
use hydro_lo_ra_shield.Base.{
  ℕ, ◌≤◌, ◌<◌, ◌≡◌, refl, sym, ap, ◌∙◌, List, [], ◌∷◌, ◌++◌, Option, some, arith, length, IsBytes,
  u8,
}
use hydro_lo_ra_shield.Base.Fault.{◌>>=◌, Returns_lem}
use hydro_lo_ra_shield.Packet.{Packet, content, encryp, type_code}
use hydro_lo_ra_shield.Padding.{pad, padded_size}
use hydro_lo_ra_shield.Aes.{Aes, AesLaws}
use hydro_lo_ra_shield.Spi.{Spi}
use hydro_lo_ra_shield.Driver.Transfer.Air.{TransmitLaws}
use hydro_lo_ra_shield.Lora.{Device}
use hydro_lo_ra_shield.Lora.Radio.{radio}
use hydro_lo_ra_shield.Lora.Air.{radio_laws}
use hydro_lo_ra_shield.Entries.{slot}
use hydro_lo_ra_shield.Handler.{Handler}
use hydro_lo_ra_shield.Handler.Send.{send, raw_fragments}
use hydro_lo_ra_shield.Handler.Send.Fragments.{join, IsFragment, IsStale, Run}
use hydro_lo_ra_shield.Handler.Send.Transmit.{frames}
use hydro_lo_ra_shield.Handler.Send.Handshake.{sent_vector, shaken_ctx}
use hydro_lo_ra_shield.Exchange.Sending.{sent_entry, later, send-IsSending}
use hydro_lo_ra_shield.Interface.{Request, on_data}
use hydro_lo_ra_shield.Interface.Laws.{IsSmall, on_data-IsSmall, on_data-total, IsAsked-size}
use hydro_lo_ra_shield.UnixSocket.{Os}
use hydro_lo_ra_shield.Handler.Send.Steps.{idle}
use hydro_lo_ra_shield.Main.System.{request, System, Reach, IsMessage}
use hydro_lo_ra_shield.Main.System.Requests.{request-Reach}

module _ {aes : Aes} {spi : Spi} (aes_laws : AesLaws aes) (laws : TransmitLaws spi)
    (fresh : ℕ → List ℕ) (message : List ℕ) (rands : ℕ → ℕ) (now : ℕ) (stale : ℕ → List ℕ)
    (gaps : ℕ → ℕ) (h : Handler aes) (d : Device spi) where
  -- What a request has done: `handshake` and `pkts` are on the air of the chip, in this order, and
  -- `pkts` carry what `r` asks for, encrypted under the context of the handshake.
  pub record IsRequested (r : Request) (last : Handler aes) (after : Device spi) : Type 0 where
    pub asked : on_data message ≡ some r
    pub buffer : List ℕ
    pub handshake : Packet
    pub pkts : List Packet
    pub padded : pad r.bytes r.size ≡ some buffer
    pub aired : laws.air after.chip ≡ laws.air d.chip ++ frames gaps (handshake ∷ pkts)
    pub opens : IsFragment (type_code encryp) (u8 (rands 0)) 1 0 handshake
    pub vector : content handshake ≡ sent_vector (later rands)
    pub numbered :
        Run (type_code r.type) (u8 (rands 0)) (u8 (raw_fragments (padded_size r.size))) 0 pkts
    pub encrypted : join pkts ≡ (aes.ctr_xcrypt (shaken_ctx aes (later rands)) buffer).0
    pub counted : length pkts ≡ u8 (raw_fragments (padded_size r.size))
    pub stored : slot (sent_entry rands now) last.messages ≡ pkts

  -- A message of 1 to 256 bytes from a client whose key is new, whatever the chip is doing, with two
  -- attempts for each frame: the request returns. On the air are then one packet of type ENCRYP,
  -- the only fragment of the message, with the drawn vector, each word reversed, and behind it the
  -- numbered fragments of what the message asks for, padded and encrypted under that vector.
  pub request-IsRequested :
      0 < length message
      → length message ≤ 256
      → IsBytes message
      → IsStale stale
      → slot (sent_entry rands now) h.messages ≡ []
      → (r : Request) × (last : Handler aes) × (after : Device spi) × (request fresh message rands
            now stale gaps 2 h d
          ≡ some (last, after))
        × IsRequested r last after
  unfolding request radio radio_laws
  request-IsRequested some_bytes few bytes rooms new =
      let (r, asked, whole) = on_data-total message in
      let (pos, small, r_bytes) =
        Returns_lem IsSmall (on_data message) (on_data-IsSmall message some_bytes few bytes)
          asked in
      let (last, after, sent, done) =
        send-IsSending aes_laws (radio spi fresh) (radio_laws laws fresh) rands now stale gaps 2
          r.bytes r.size r.type h d (sym (IsAsked-size message r whole)) pos (omega (arith, small))
          r_bytes rooms (omega arith) new in
      (
        r,
        last,
        after,
        ap
              (λ (o : Option Request).
                o >>= λ q. send (radio spi fresh) rands now stale gaps 2 q.bytes q.size q.type h d)
              asked
            ∙ sent,
        record {
          asked = asked;
          buffer = done.buffer;
          handshake = done.handshake;
          pkts = done.pkts;
          padded = done.padded;
          aired = done.aired;
          opens = done.opens;
          vector = done.vector;
          numbered = done.numbered;
          encrypted = done.encrypted;
          counted = done.counted;
          stored = done.stored;
        },
      )

module _ {aes : Aes} {spi : Spi} {os : Os} (aes_laws : AesLaws aes) (laws : TransmitLaws spi)
    (fresh : ℕ → List ℕ) where
  -- A message of a client, whose key is new, that comes when the socket's thread is outside `send`
  -- has a run of the system, in the steps of `send`, to a state outside `send` in which a handshake of
  -- type ENCRYP and then the numbered fragments of what the message asks for, padded and encrypted
  -- under the handshake's vector, are on the air.
  pub Reach-IsRequested :
      (message : List ℕ) (rands : ℕ → ℕ) (now : ℕ) (stale : ℕ → List ℕ) (gaps : ℕ → ℕ)
      (s : System aes spi os)
      → IsMessage message
      → IsStale stale
      → s.sender ≡ idle
      → slot (sent_entry rands now) s.handler.messages ≡ []
      → (r : Request) × (t : System aes spi os) × Reach fresh s t
        × (t.sender ≡ idle)
        × IsRequested aes_laws laws fresh message rands now stale gaps s.handler s.lora r t.handler
            t.lora
  Reach-IsRequested message rands now stale gaps s read rooms free new =
      let (r, last, after, e, done) =
        request-IsRequested aes_laws laws fresh message rands now stale gaps s.handler s.lora read.0
          read.1 read.2 rooms new in
      (
        r,
        record s { handler = last; lora = after; sender = idle },
        request-Reach fresh message rands now stale gaps 2 s last after read rooms free e,
        refl,
        done,
      )
