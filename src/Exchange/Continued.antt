-- ===== src/Exchange/Continued.antt =====
-- What `send` makes once its handshake is out, under the context that it finds then.
use hydro_lo_ra_shield.Base.{
  ℕ, ◌+◌, ◌^◌, ◌≤◌, ◌<◌, ◌≡◌, refl, ap, ◌∙◌, List, [], ◌∷◌, ◌++◌, some, arith, length, All, IsBytes,
  u8,
}
use hydro_lo_ra_shield.Packet.{Packet, IsPacket, type_code}
use hydro_lo_ra_shield.Packet.Wire.Laws.{bytes_of, encode_fits}
use hydro_lo_ra_shield.Entries.{MessageEntry, slot, touch, push_all}
use hydro_lo_ra_shield.Entries.Laws.{slot-push_all}
use hydro_lo_ra_shield.Padding.{pad, padded_size}
use hydro_lo_ra_shield.Padding.Laws.{pad_lem, padded}
use hydro_lo_ra_shield.Aes.{Aes, AesLaws}
use hydro_lo_ra_shield.Handler.{Handler}
use hydro_lo_ra_shield.Handler.Send.{raw_fragments}
use hydro_lo_ra_shield.Handler.Send.Fragments.{join, Run, IsStale}
use hydro_lo_ra_shield.Handler.Send.Steps.{
  Outgoing, greeting, transmitting, Stage, idle, trying, next_frame, go_on,
}
use hydro_lo_ra_shield.Exchange.Fragmented.{longest, fragments-total}
use hydro_lo_ra_shield.Exchange.Sending.{Run-IsPacket, type_code-lt}

-- The message of a call of `send` that the handler can carry.
pub record IsOutgoing (o : Outgoing) : Type 0 where
  pub whole : length o.message ≡ o.size
  pub some_bytes : 0 < o.size
  pub carried : o.size ≤ longest
  pub bytes : IsBytes o.message
  pub id_fits : o.entry.id < 256

-- The head of the transmitting loop does not fault.
pub next_frame-total :
    (entry : MessageEntry) (gap : ℕ) (pkts : List Packet)
    → All IsPacket pkts
    → (stage : Stage) × (next_frame entry gap pkts ≡ some stage)
unfolding next_frame
next_frame-total entry gap [] fits = (idle, refl)
next_frame-total entry gap (pkt ∷ pkts) fits =
    (trying (bytes_of gap pkt) (transmitting entry pkts), rw (encode_fits gap fits.0) refl)

-- `pkts` carry the message of `o`, encrypted under `ctx`, and the first of them is to be sent next.
pub record IsContinued (aes : Aes) (o : Outgoing) (gap : ℕ) (ctx : aes.Ctx) (stage : Stage)
    : Type 0 where
  pub buffer : List ℕ
  pub pkts : List Packet
  pub padded_as : pad o.message o.size ≡ some buffer
  pub numbered : Run (type_code o.type) o.entry.id (u8 (raw_fragments (padded_size o.size))) 0 pkts
  pub encrypted : join pkts ≡ (aes.ctr_xcrypt ctx buffer).0
  pub next_is : next_frame o.entry gap pkts ≡ some stage

pub go_on-IsContinued :
    {aes : Aes} (laws : AesLaws aes) (o : Outgoing) (iv_bytes : List ℕ) (stale : ℕ → List ℕ)
    (gap : ℕ) (h : Handler aes)
    → IsOutgoing o
    → IsStale stale
    → slot o.entry h.messages ≡ []
    → (last : Handler aes) × (stage : Stage) × (go_on (greeting o iv_bytes) stale gap h
        ≡ some (last, stage))
      × IsContinued aes o gap h.aes_ctx stage
unfolding go_on
go_on-IsContinued {aes} laws o iv_bytes stale gap h ok rooms new =
    let fits : o.size + 15 < 2 ^ 32 = omega (arith, ok.carried) in
    let buffer = padded o.message o.size ok.whole ok.some_bytes fits in
    let added = pad_lem o.message o.size ok.whole fits in
    let (pkts, made, run, joined, count) =
      fragments-total o.message o.size ok.whole ok.some_bytes ok.carried ok.bytes laws h.aes_ctx
        (type_code o.type) o.entry.id stale (type_code-lt o.type) ok.id_fits rooms buffer added in
    let filled = push_all o.entry pkts h.messages in
    let kept : slot o.entry filled ≡ pkts =
      slot-push_all o.entry pkts h.messages ∙ ap (λ l. l ++ pkts) new in
    let (stage, next) =
      next_frame-total o.entry gap pkts (Run-IsPacket (type_code o.type) o.entry.id _ 0 pkts run) in
    (
      record h { aes_ctx = (aes.ctr_xcrypt h.aes_ctx buffer).1; messages = touch o.entry filled },
      stage,
      rw added (rw made (rw kept (rw next refl))),
      record {
        buffer = buffer;
        pkts = pkts;
        padded_as = added;
        numbered = run;
        encrypted = joined;
        next_is = next;
      },
    )
