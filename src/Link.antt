-- ===== src/Link.antt =====
-- What lib/packethandler.cpp uses of the radio (the class `LoRa` of lib/lora.h) and of the clock:
-- an interface, and the laws of a radio that sends whole frames and is not busy for ever.
use hydro_lo_ra_shield.Base.{
  ℕ, zero, suc, ◌<◌, ◌≡◌, Bool, true, false, List, [], ◌∷◌, ◌++◌, Option, length,
}

-- `LORA_OK`.
abbrev pub lora_ok : ℕ
lora_ok = 0

-- What `LoRa::receive` returns, the `errorOut` value and the buffer that it has filled.
pub record Reception : Type 0 where
  pub received : ℕ
  pub error : ℕ
  pub buffer : List ℕ

pub record Link : Type 1 where
  -- The state of the radio and of its surroundings.
  pub Radio : Type 0
  -- `LoRa::send` of the buffer.
  pub send : List ℕ → Radio → Bool × Radio
  -- `LoRa::receive` into a buffer of stale bytes, with its length and the timeout; `none` is a
  -- fault.
  pub receive : List ℕ → ℕ → ℕ → Radio → Option (Reception × Radio)
  -- `sleep_for` some milliseconds.
  pub sleep : ℕ → Radio → Radio

-- The radio after `n` refused attempts, each followed by the wait of 50 ms.
unfoldable pub attempts : (link : Link) → ℕ → List ℕ → link.Radio → link.Radio
attempts link zero buffer radio = radio
attempts link (suc n) buffer radio =
    attempts link n buffer (link.sleep 50 (link.send buffer radio).1)

pub record LinkLaws (link : Link) : Type 0 where
  -- The frames whose transmission has begun, oldest first; a send can break off the one before
  -- it. A frame has at most 255 bytes.
  pub air : link.Radio → List (List ℕ)
  pub air-send :
      (buffer : List ℕ) (radio : link.Radio)
      → length buffer < 256
      → (link.send buffer radio).0 ≡ true
      → air (link.send buffer radio).1 ≡ air radio ++ buffer ∷ []
  pub air-send_refused :
      (buffer : List ℕ) (radio : link.Radio)
      → length buffer < 256
      → (link.send buffer radio).0 ≡ false
      → air (link.send buffer radio).1 ≡ air radio
  pub air-sleep : (ms : ℕ) (radio : link.Radio) → air (link.sleep ms radio) ≡ air radio
  -- Of `patience` attempts in a row one is accepted.
  pub patience : ℕ
  pub accepts :
      (buffer : List ℕ) (radio : link.Radio)
      → length buffer < 256
      → (n : ℕ) × (n < patience) × ((link.send buffer (attempts link n buffer radio)).0 ≡ true)
