-- ===== src/Handler/Send/Steps/Uninterrupted.antt =====
-- The steps of `send`, with no other thread between them, are `send`.
use hydro_lo_ra_shield.Base.{
  replicate, length-replicate, All-replicate, IsByte, arith, ℕ, zero, suc, ◌+◌, ◌≡◌, refl, Bool,
  true, false, List, [], ◌∷◌, some, Bool-cases, inl, inr, u8,
}
use hydro_lo_ra_shield.Base.Fault.{Returns, Returns->>=, Returns-then, Returns-weaken}
use hydro_lo_ra_shield.Packet.{Packet, PacketTypes, type_code, packet_max_size}
use hydro_lo_ra_shield.Packet.Wire.{encode}
use hydro_lo_ra_shield.Endian.{load_words, u32_to_bytes}
use hydro_lo_ra_shield.Entries.{MessageEntry, push_all, slot, touch}
use hydro_lo_ra_shield.Padding.{pad, padded_size}
use hydro_lo_ra_shield.Aes.{Aes}
use hydro_lo_ra_shield.Link.{Link}
use hydro_lo_ra_shield.Handler.{Handler}
use hydro_lo_ra_shield.Handler.Send.{
  send_until, send_pkt, transmit, draw, handshake_packet, fragments, raw_fragments,
  encryption_handshake, send,
}
use hydro_lo_ra_shield.Handler.Send.Fragments.{IsStale}
use hydro_lo_ra_shield.Handler.Send.Steps.{
  Outgoing, Job, greeting, transmitting, Stage, idle, trying, waiting, resting, next_frame,
  begin_send, go_on, send_step, Alone, returned, stepped,
}

no_memory : ℕ → List ℕ
no_memory i = replicate packet_max_size 0

no_memory-IsStale : IsStale no_memory
unfolding no_memory
no_memory-IsStale i = (
  length-replicate {A = ℕ} packet_max_size 0,
  All-replicate IsByte packet_max_size 0 (omega arith),
)

module _ {aes : Aes} (link : Link) where
  Alone-then :
      (s t u : Handler aes × link.Radio × Stage) → Alone link s t → Alone link t u → Alone link s u
  Alone-then s t u (returned s') rest = rest
  Alone-then s t u (stepped stale gap s' m t' room e run) rest =
      stepped stale gap s' m u room e (Alone-then m t' u run rest)

  -- One attempt and the sleep after it.
  attempt-Alone :
      (b : Bool) (buffer : List ℕ) (job : Job) (h : Handler aes) (radio : link.Radio)
      (stage : Stage)
      → (link.send buffer radio).0 ≡ b
      → send_step link no_memory 0 (h, (link.send buffer radio).1, waiting buffer b job)
        ≡ some (h, link.sleep 50 (link.send buffer radio).1, stage)
      → Alone link
          (h, radio, trying buffer job)
          (h, link.sleep 50 (link.send buffer radio).1, stage)
  unfolding send_step
  attempt-Alone b buffer job h radio stage e slept =
      stepped no_memory 0 (h, radio, trying buffer job)
        (h, (link.send buffer radio).1, waiting buffer b job) _ no_memory-IsStale (rw e refl)
        (stepped no_memory 0 _ _ _ no_memory-IsStale slept (returned _))

  -- The loop that repeats `lora->send`.
  send_until-Alone :
      (fuel : ℕ) (buffer : List ℕ) (job : Job) (h : Handler aes) (radio : link.Radio)
      → Returns
          (λ sent. Alone link (h, radio, trying buffer job) (h, sent, resting job))
          (send_until link fuel buffer radio)
  unfolding send_until send_step
  send_until-Alone zero buffer job h radio = tt
  send_until-Alone (suc fuel) buffer job h radio =
      let slept = link.sleep 50 (link.send buffer radio).1 in
      elim (Bool-cases (link.send buffer radio).0) [
        | inl sent ↦
            rw (sent, Returns, send_until)
              (attempt-Alone true buffer job h radio (resting job) sent refl)
        | inr busy ↦
            rw (busy, Returns, send_until)
              (Returns-weaken (λ r. Alone link (h, slept, trying buffer job) (h, r, resting job)) _
                (send_until link fuel buffer slept) (send_until-Alone fuel buffer job h slept)
                (λ r run.
                  Alone-then _ _ _
                    (attempt-Alone false buffer job h radio (trying buffer job) busy refl) run))
      ]

  -- What `send_pkt` has done when it returns `sent`: its last sleep is part of the next step.
  abbrev SendsPkt : ℕ → Packet → Job → Handler aes → link.Radio → link.Radio → Type 0
  SendsPkt gap pkt job h radio sent =
      (buffer : List ℕ) × (before : link.Radio) × (encode gap pkt ≡ some buffer)
      × (sent ≡ link.sleep 50 before)
      × Alone link (h, radio, trying buffer job) (h, before, resting job)

  send_pkt-Alone :
      (fuel gap : ℕ) (pkt : Packet) (job : Job) (h : Handler aes) (radio : link.Radio)
      → Returns (SendsPkt gap pkt job h radio) (send_pkt link fuel gap pkt radio)
  unfolding send_pkt
  send_pkt-Alone fuel gap pkt job h radio =
      Returns->>= (SendsPkt gap pkt job h radio) (encode gap pkt) _ (λ buffer e.
        Returns-then (λ r. Alone link (h, radio, trying buffer job) (h, r, resting job))
          (SendsPkt gap pkt job h radio) (send_until link fuel buffer radio) _
          (send_until-Alone fuel buffer job h radio) (λ r run. (buffer, r, e, refl, run)))

  -- The step after a `send_pkt` that has returned.
  after_pkt :
      (stale : ℕ → List ℕ) (gap : ℕ) (job : Job) (h next : Handler aes) (before : link.Radio)
      (stage : Stage) (last : Handler aes × link.Radio × Stage)
      → IsStale stale
      → go_on job stale gap h ≡ some (next, stage)
      → Alone link (next, link.sleep 50 before, stage) last
      → Alone link (h, before, resting job) last
  unfolding send_step
  after_pkt stale gap job h next before stage last room e run =
      stepped stale gap (h, before, resting job) (next, link.sleep 50 before, stage) last room
        (rw e refl) run

  -- The loop over the fragments.
  abbrev Transmits :
      MessageEntry → (ℕ → ℕ) → List Packet → Handler aes → link.Radio → link.Radio → Type 0
  Transmits entry gaps pkts h radio after =
      (stage : Stage) × (next_frame entry (gaps 0) pkts ≡ some stage)
      × Alone link (h, radio, stage) (h, after, idle)

  transmit-Alone :
      (entry : MessageEntry) (fuel : ℕ) (gaps : ℕ → ℕ) (pkts : List Packet) (h : Handler aes)
      (radio : link.Radio)
      → Returns (Transmits entry gaps pkts h radio) (transmit link fuel gaps pkts radio)
  unfolding transmit next_frame go_on
  transmit-Alone entry fuel gaps [] h radio = (idle, refl, returned _)
  transmit-Alone entry fuel gaps (pkt ∷ pkts) h radio =
      let job = transmitting entry pkts in
      Returns-then (SendsPkt (gaps 0) pkt job h radio) (Transmits entry gaps (pkt ∷ pkts) h radio)
        (send_pkt link fuel (gaps 0) pkt radio) _ (send_pkt-Alone fuel (gaps 0) pkt job h radio)
        (λ sent (buffer, before, e, slept, run).
          Returns-weaken (Transmits entry (λ i. gaps (i + 1)) pkts h sent)
            (Transmits entry gaps (pkt ∷ pkts) h radio)
            (transmit link fuel (λ i. gaps (i + 1)) pkts sent)
            (transmit-Alone entry fuel (λ i. gaps (i + 1)) pkts h sent)
            (λ after (stage, next, rest). (
              trying buffer job,
              rw e refl,
              Alone-then _ _ _ run (
                  after_pkt no_memory (gaps 1) job h h before stage (h, after, idle)
                    no_memory-IsStale (rw next refl) (rw slept at rest)),
            )))

module _ {aes : Aes} (link : Link) (rands : ℕ → ℕ) (now : ℕ) (stale : ℕ → List ℕ) (gaps : ℕ → ℕ)
    (fuel : ℕ) (message : List ℕ) (size : ℕ) (type : PacketTypes) (h : Handler aes)
    (radio : link.Radio) (rooms : IsStale stale) where
  -- The locals of `send`, and the vector that its handshake carries.
  abbrev outgoing : Outgoing
  outgoing = record {
    entry = record { id = u8 (rands 0); expiration = now + 10000 };
    message = message;
    size = size;
    type = type;
  }

  abbrev iv_bytes : List ℕ
  iv_bytes = u32_to_bytes (load_words (draw 16 (λ i. rands (i + 1))))

  abbrev Shakes : Handler aes × link.Radio → Type 0
  Shakes (shaken, ready) =
      (buffer : List ℕ) × (before : link.Radio) × (begin_send rands now (stale 0) (gaps 0) message
          size type h
        ≡ some (shaken, trying buffer (greeting outgoing iv_bytes)))
      × (ready ≡ link.sleep 50 before)
      × Alone link (shaken, radio, trying buffer (greeting outgoing iv_bytes))
          (shaken, before, resting (greeting outgoing iv_bytes))

  encryption_handshake-Alone : Returns Shakes (
      encryption_handshake link (u8 (rands 0)) (λ i. rands (i + 1)) (stale 0) (gaps 0) fuel h radio)
  unfolding encryption_handshake begin_send
  encryption_handshake-Alone =
      Returns->>= Shakes (handshake_packet (u8 (rands 0)) iv_bytes (stale 0)) _ (λ pkt e.
        Returns-then (SendsPkt link (gaps 0) pkt (greeting outgoing iv_bytes) _ radio) Shakes
          (send_pkt link fuel (gaps 0) pkt radio) _
          (send_pkt-Alone link fuel (gaps 0) pkt (greeting outgoing iv_bytes) _ radio)
          (λ sent (buffer, before, f, slept, run). (buffer, before, rw (e, f) refl, slept, run)))

  -- A thread that is alone goes through `send` from its beginning to its end.
  abbrev pub SendsAlone : Handler aes × link.Radio → Type 0
  SendsAlone (last, after) =
      (next : Handler aes) × (stage : Stage) × (begin_send rands now (stale 0) (gaps 0) message size
          type h
        ≡ some (next, stage))
      × Alone link (next, radio, stage) (last, after, idle)

  pub send-Alone :
      Returns SendsAlone (send link rands now stale gaps fuel message size type h radio)
  unfolding send go_on
  send-Alone =
      let entry : MessageEntry = record { id = u8 (rands 0); expiration = now + 10000 } in
      Returns-then Shakes SendsAlone
        (encryption_handshake link (u8 (rands 0)) (λ i. rands (i + 1)) (stale 0) (gaps 0) fuel h
          radio)
        _ encryption_handshake-Alone
        (λ (shaken, ready) (buffer, before, begun, slept, run).
          Returns->>= SendsAlone (pad message size) _ (λ padded e.
            Returns->>= SendsAlone
              (fragments (type_code type) (u8 (rands 0)) (u8 (raw_fragments (padded_size size)))
                (aes.ctr_xcrypt shaken.aes_ctx padded).0 (padded_size size) (padded_size size) 0 0
                (λ i. stale (i + 1)))
              _
              (λ pkts f.
                let filled = push_all entry pkts shaken.messages in
                let last : Handler aes = record shaken {
                  aes_ctx = (aes.ctr_xcrypt shaken.aes_ctx padded).1;
                  messages = touch entry filled;
                } in
                Returns-then
                  (Transmits link entry (λ i. gaps (i + 1)) (slot entry filled) last ready)
                  SendsAlone (transmit link fuel (λ i. gaps (i + 1)) (slot entry filled) ready) _
                  (transmit-Alone link entry fuel (λ i. gaps (i + 1)) (slot entry filled) last
                    ready)
                  (λ after (stage, next, rest). (
                    shaken,
                    trying buffer (greeting outgoing iv_bytes),
                    begun,
                    Alone-then link _ _ _ run (
                        after_pkt link (λ i. stale (i + 1)) (gaps 1) (greeting outgoing iv_bytes)
                          shaken last before stage _ (λ i. rooms (i + 1)) (rw (e, f, next) refl)
                          (rw slept at rest)),
                  )))))
