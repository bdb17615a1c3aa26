-- ===== src/Lora/Air.antt =====
-- The class `LoRa` as the radio of the packet handler: the laws of `Link`, for a chip that transmits
-- as the datasheet describes.
use hydro_lo_ra_shield.Base.{
  ℕ, ◌<◌, ◌≡◌, ◌≢◌, refl, sym, ap, ◌∙◌, ◌⊎◌, inl, inr, Bool, true, false, List, [], ◌∷◌, ◌++◌,
  arith, length, bit_and, u8, some,
}
use native.Mathlib.Decide.{ℕ_discrete}
use hydro_lo_ra_shield.Spi.{Spi}
use hydro_lo_ra_shield.Link.{LinkLaws, attempts}
use hydro_lo_ra_shield.Driver.{
  read_register, write_register, set_mode, reg_op_mode, opmode_tx, lora_mode_receive,
  lora_mode_receive_continuous, lora_enable_interrupt_rx_done, lora_enable_interrupt_tx_done,
}
use hydro_lo_ra_shield.Driver.Transfer.Send.{IsTransmitting, started}
use hydro_lo_ra_shield.Driver.Transfer.Air.{TransmitLaws, air-started}
use hydro_lo_ra_shield.Lora.{Device, receiving, transmitting, set_receive_mode, set_transmit_mode}
use hydro_lo_ra_shield.Lora.Radio.{send, send-cases, try_send, wait, radio}

true_not_false : ◌≢◌ {A = Bool} true false
true_not_false e = cc

module _ {spi : Spi} (laws : TransmitLaws spi) where
  IsTransmitting-cases : (c : spi.Chip) → IsTransmitting spi c ⊎ (¬ IsTransmitting spi c)
  IsTransmitting-cases c =
      elim (ℕ_discrete (bit_and (read_register spi reg_op_mode c).0 opmode_tx) opmode_tx) [
        | yes busy ↦ inl busy
        | no idle ↦ inr idle
      ]

  open laws use {air, mode}

  air-seen : (c : spi.Chip) → air (read_register spi reg_op_mode c).1 ≡ air c
  unfolding read_register
  air-seen c = laws.air-read_mode c

  mode-seen : (c : spi.Chip) → (read_register spi reg_op_mode c).0 ≡ mode c
  unfolding read_register
  mode-seen c = laws.mode-read c

  set_receive_mode-air : (d : Device spi) → air (set_receive_mode spi d).chip ≡ air d.chip
  unfolding set_receive_mode lora_mode_receive_continuous lora_mode_receive
      lora_enable_interrupt_rx_done set_mode write_register
  set_receive_mode-air d =
      laws.air-write 0x40 0 _ (omega arith) (omega arith) (omega arith)
      ∙ laws.air-write_mode 0x85 _ (λ e. absurd (omega (arith, e)))
      ∙ laws.air-write 0x12 _ _ (omega arith) (omega arith) (omega arith)
      ∙ laws.air-write 0x0f (u8 d.lora.rx_base_addr) d.chip (omega arith) (omega arith)
          (omega arith)

  pub set_receive_mode-mode : (d : Device spi) → mode (set_receive_mode spi d).chip ≡ 0x85
  unfolding set_receive_mode lora_mode_receive_continuous lora_mode_receive
      lora_enable_interrupt_rx_done set_mode write_register
  set_receive_mode-mode d =
      laws.mode-write 0x40 0 _ (omega arith) (omega arith) (omega arith)
      ∙ laws.mode-write_mode 0x85 _ (omega arith)

  set_transmit_mode-air : (d : Device spi) → air (set_transmit_mode spi d).chip ≡ air d.chip
  unfolding set_transmit_mode lora_enable_interrupt_tx_done write_register
  set_transmit_mode-air d =
      laws.air-write 0x40 0x40 d.chip (omega arith) (omega arith) (omega arith)

  -- In the continuous receive mode the chip is not transmitting.
  receiving-idle : (c : spi.Chip) → mode c ≡ 0x85 → ¬ IsTransmitting spi c
  receiving-idle c e busy =
      absurd (five (ap (λ m. bit_and m opmode_tx) (sym (mode-seen c ∙ e)) ∙ busy))
    where
      five : bit_and 0x85 0x03 ≢ 0x03
      five e = omega (arith, e)

  module _ (buffer : List ℕ) (d : Device spi) (small : length buffer < 256) where
    -- An idle chip takes the packet, and it is on the air.
    try_send-idle :
        ¬ IsTransmitting spi d.chip
        → ((try_send spi buffer d).0 ≡ true)
          × (air (try_send spi buffer d).1.chip ≡ air d.chip ++ buffer ∷ [])
    unfolding try_send
    try_send-idle idle = elim (send-cases spi buffer d small) [
      | inl (idle', e) ↦
          rw (e, try_send)
            (
              refl,
              set_transmit_mode-air _
                  ∙ air-started laws d.lora buffer small _
                  ∙ ap (λ l. l ++ buffer ∷ []) (air-seen d.chip),
            )
      | inr (busy, e) ↦ absurd (idle busy)
    ]

    -- A chip that is transmitting refuses it, and listens from then on.
    try_send-busy :
        IsTransmitting spi d.chip
        → ((try_send spi buffer d).0 ≡ false)
          × (air (try_send spi buffer d).1.chip ≡ air d.chip)
          × (mode (try_send spi buffer d).1.chip ≡ 0x85)
    unfolding try_send
    try_send-busy busy = elim (send-cases spi buffer d small) [
      | inl (idle, e) ↦ absurd (idle busy)
      | inr (busy', e) ↦
          rw (e, try_send) (refl, set_receive_mode-air _ ∙ air-seen d.chip, set_receive_mode-mode _)
    ]

    pub air-sent :
        (try_send spi buffer d).0 ≡ true
        → air (try_send spi buffer d).1.chip ≡ air d.chip ++ buffer ∷ []
    air-sent sent = elim (IsTransmitting-cases d.chip) [
      | inl busy ↦ absurd (true_not_false (sym sent ∙ (try_send-busy busy).0))
      | inr idle ↦ (try_send-idle idle).1
    ]

    pub air-refused :
        (try_send spi buffer d).0 ≡ false → air (try_send spi buffer d).1.chip ≡ air d.chip
    air-refused refused = elim (IsTransmitting-cases d.chip) [
      | inl busy ↦ (try_send-busy busy).1
      | inr idle ↦ absurd (true_not_false (sym (try_send-idle idle).0 ∙ refused))
    ]

    -- After a refusal the chip is in the continuous receive mode.
    pub mode-refused :
        (try_send spi buffer d).0 ≡ false → mode (try_send spi buffer d).1.chip ≡ 0x85
    mode-refused refused = elim (IsTransmitting-cases d.chip) [
      | inl busy ↦ (try_send-busy busy).2
      | inr idle ↦ absurd (true_not_false (sym (try_send-idle idle).0 ∙ refused))
    ]

    -- In that mode it accepts a frame.
    pub accepted-listening : mode d.chip ≡ 0x85 → (try_send spi buffer d).0 ≡ true
    accepted-listening on = (try_send-idle (receiving-idle d.chip on)).0

  -- The second attempt in a row is accepted, if the first one is not.
  pub accepted_soon :
      (fresh : ℕ → List ℕ) (buffer : List ℕ) (d : Device spi)
      → length buffer < 256
      → (n : ℕ) × (n < 2)
        × ((try_send spi buffer (unfold radio in attempts (radio spi fresh) n buffer d)).0 ≡ true)
  unfolding radio attempts wait
  accepted_soon fresh buffer d small = elim (IsTransmitting-cases d.chip) [
    | inl busy ↦ (
      1,
      omega arith,
      (try_send-idle buffer (wait spi 50 (try_send spi buffer d).1) small
          (receiving-idle _ (laws.mode-sleep 50 _ (try_send-busy buffer d small busy).2))).0,
    )
    | inr idle ↦ (0, omega arith, (try_send-idle buffer d small idle).0)
  ]

  -- The class is a radio that sends each frame once and is not busy for ever: it refuses a frame
  -- only while the chip is transmitting, and breaks that transmission off, so that the next
  -- attempt is accepted.
  unfoldable pub radio_laws : (fresh : ℕ → List ℕ) → LinkLaws (radio spi fresh)
  unfolding radio wait
  radio_laws fresh = record {
    air = λ d. air d.chip;
    air-send = λ buffer d small sent. air-sent buffer d small sent;
    air-send_refused = λ buffer d small refused. air-refused buffer d small refused;
    air-sleep = λ ms d. laws.air-sleep ms d.chip;
    patience = 2;
    accepts = λ buffer d small. accepted_soon fresh buffer d small;
  }

  -- What `send` has done with a buffer: it is on the air, whole, and the object is in the transmit
  -- mode; or, if the chip was transmitting, it is not on the air, and the chip and the object are in
  -- the receive mode.
  abbrev pub IsSent : List ℕ → Device spi → Bool → Device spi → Type 0
  IsSent buffer d sent after =
      ((bit_and (mode d.chip) 3 ≢ 3)
        × (sent ≡ true)
        × (air after.chip ≡ air d.chip ++ buffer ∷ [])
        × (after.mode ≡ transmitting))
      ⊎ ((bit_and (mode d.chip) 3 ≡ 3)
          × (sent ≡ false)
          × (air after.chip ≡ air d.chip)
          × (mode after.chip ≡ 0x85)
          × (after.mode ≡ receiving))

  transmitting_mode : (c : spi.Chip) → IsTransmitting spi c → bit_and (mode c) 3 ≡ 3
  transmitting_mode c busy = ap (λ m. bit_and m 3) (sym (mode-seen c)) ∙ busy

  idle_mode : (c : spi.Chip) → ¬ IsTransmitting spi c → bit_and (mode c) 3 ≢ 3
  idle_mode c idle e = absurd (idle (ap (λ m. bit_and m 3) (mode-seen c) ∙ e))

  -- `LoRa::send` of at most 255 bytes returns. If the mode register does not say that the chip is
  -- transmitting (its low two bits are not both set), it returns true, the chip has begun to
  -- transmit exactly these bytes, and the object's mode is that of transmitting. If it does, `send`
  -- returns false, nothing new is on the air, and the chip is in the continuous receive mode and the
  -- object in its receive mode.
  pub send-IsSent :
      (buffer : List ℕ) (d : Device spi)
      → length buffer < 256
      → (sent : Bool) × (after : Device spi) × (send spi buffer (length buffer) d
          ≡ some (sent, after))
        × IsSent buffer d sent after
  unfolding set_transmit_mode set_receive_mode
  send-IsSent buffer d small = elim (send-cases spi buffer d small) [
    | inl (idle, e) ↦ (
      true,
      _,
      e,
      inl (
        idle_mode d.chip idle,
        refl,
        set_transmit_mode-air (record d {
          chip = started spi d.lora buffer (length buffer) (read_register spi reg_op_mode d.chip).1;
        })
            ∙ air-started laws d.lora buffer small _
            ∙ ap (λ l. l ++ buffer ∷ []) (air-seen d.chip),
        refl,
      ),
    )
    | inr (busy, e) ↦ (
      false,
      _,
      e,
      inr (
        transmitting_mode d.chip busy,
        refl,
        set_receive_mode-air (record d { chip = (read_register spi reg_op_mode d.chip).1 })
            ∙ air-seen d.chip,
        set_receive_mode-mode (record d { chip = (read_register spi reg_op_mode d.chip).1 }),
        refl,
      ),
    )
  ]
