-- ===== src/Handler/Send/Steps/Keyed.antt =====
-- The steps of `send` and the AES context: while the handshake is being sent, the context is the
-- one that was started with the handshake's vector.
use hydro_lo_ra_shield.Base.{ℕ, ◌≡◌, true, false, List, [], ◌∷◌, u8}
use hydro_lo_ra_shield.Base.Fault.{Returns, Returns->>=, Returns-then}
use hydro_lo_ra_shield.Packet.{Packet, type_code}
use hydro_lo_ra_shield.Packet.Wire.{encode}
use hydro_lo_ra_shield.Endian.{u32_to_bytes}
use hydro_lo_ra_shield.Entries.{MessageEntry, slot, push_all}
use hydro_lo_ra_shield.Padding.{pad, padded_size}
use hydro_lo_ra_shield.Aes.{Aes}
use hydro_lo_ra_shield.Link.{Link}
use hydro_lo_ra_shield.Handler.{Handler, aes_key}
use hydro_lo_ra_shield.Handler.Send.{fragments, raw_fragments}
use hydro_lo_ra_shield.Handler.Send.Steps.{
  Job, greeting, transmitting, Stage, idle, trying, waiting, resting, next_frame, go_on, send_step,
}

-- While a handshake is being sent, the context is started with its vector.
abbrev pub IsAnnounced : (aes : Aes) → aes.Ctx → Job → Type 0
IsAnnounced aes ctx (greeting o iv_bytes) = ctx ≡ aes.init_ctx_iv (u32_to_bytes aes_key) iv_bytes
IsAnnounced aes ctx (transmitting entry pkts) = Unit

abbrev pub IsKeyed : (aes : Aes) → aes.Ctx → Stage → Type 0
IsKeyed aes ctx idle = Unit
IsKeyed aes ctx (trying buffer job) = IsAnnounced aes ctx job
IsKeyed aes ctx (waiting buffer succes job) = IsAnnounced aes ctx job
IsKeyed aes ctx (resting job) = IsAnnounced aes ctx job

next_frame-IsKeyed :
    (aes : Aes) (ctx : aes.Ctx) (entry : MessageEntry) (gap : ℕ) (pkts : List Packet)
    → Returns (IsKeyed aes ctx) (next_frame entry gap pkts)
unfolding next_frame
next_frame-IsKeyed aes ctx entry gap [] = tt
next_frame-IsKeyed aes ctx entry gap (pkt ∷ pkts) =
    Returns->>= (IsKeyed aes ctx) (encode gap pkt) _ (λ buffer e. tt)

module _ {aes : Aes} where
  go_on-IsKeyed :
      (job : Job) (stale : ℕ → List ℕ) (gap : ℕ) (h : Handler aes)
      → Returns (λ r. IsKeyed aes r.0.aes_ctx r.1) (go_on job stale gap h)
  unfolding go_on
  go_on-IsKeyed (greeting o iv_bytes) stale gap h =
      let Keyed : Handler aes × Stage → Type 0 = λ r. IsKeyed aes r.0.aes_ctx r.1 in
      Returns->>= Keyed (pad o.message o.size) _ (λ padded e.
        let (cipher, ctx) = aes.ctr_xcrypt h.aes_ctx padded in
        Returns->>= Keyed
          (fragments (type_code o.type) o.entry.id (u8 (raw_fragments (padded_size o.size))) cipher
            (padded_size o.size) (padded_size o.size) 0 0 stale)
          _
          (λ pkts f.
            Returns-then (IsKeyed aes ctx) Keyed
              (next_frame o.entry gap (slot o.entry (push_all o.entry pkts h.messages))) _
              (next_frame-IsKeyed aes ctx o.entry gap _) (λ stage keyed. keyed)))
  go_on-IsKeyed (transmitting entry pkts) stale gap h =
      Returns-then (IsKeyed aes h.aes_ctx) (λ r. IsKeyed aes r.0.aes_ctx r.1)
        (next_frame entry gap pkts) _ (next_frame-IsKeyed aes h.aes_ctx entry gap pkts)
        (λ stage keyed. keyed)

  pub send_step-IsKeyed :
      (link : Link) (stale : ℕ → List ℕ) (gap : ℕ) (h : Handler aes) (radio : link.Radio)
      (stage : Stage)
      → IsKeyed aes h.aes_ctx stage
      → Returns (λ r. IsKeyed aes r.0.aes_ctx r.2) (send_step link stale gap (h, radio, stage))
  unfolding send_step
  send_step-IsKeyed link stale gap h radio idle keyed = tt
  send_step-IsKeyed link stale gap h radio (trying buffer job) keyed = keyed
  send_step-IsKeyed link stale gap h radio (waiting buffer true job) keyed = keyed
  send_step-IsKeyed link stale gap h radio (waiting buffer false job) keyed = keyed
  send_step-IsKeyed link stale gap h radio (resting job) keyed =
      Returns-then (λ (r : Handler aes × Stage). IsKeyed aes r.0.aes_ctx r.1)
        (λ r. IsKeyed aes r.0.aes_ctx r.2) (go_on job stale gap h) _ (go_on-IsKeyed job stale gap h)
        (λ r next. next)
