-- ===== src/Handler.antt =====
-- lib/packethandler.h and lib/packethandler.cpp: the state of `PacketHandler`, `init`,
-- `set_msg_callback` and `clean`. The children are `send`, `receive` and `poll`.
pub mod Send
pub mod Receive
pub mod Sort
pub mod Poll
pub mod Clean
pub mod Context
pub mod Invariant
use hydro_lo_ra_shield.Base.{ℕ, Bool, true, false, List, [], ◌∷◌, leb, if◌then◌else◌}
use hydro_lo_ra_shield.Packet.{Packet}
use hydro_lo_ra_shield.Entries.{Messages, MessageEntry}
use hydro_lo_ra_shield.Endian.{store_words}
use hydro_lo_ra_shield.Aes.{Aes}

-- The words of SUPER_SECRET_SANTA_AES_KEY_DO_NOT_SHARE.
abbrev pub aes_key : List ℕ
aes_key = 0xc939cc13 ∷ 0x397c1d37 ∷ 0xde6ae0e1 ∷ 0xcb7c423c ∷ []

-- `iv` is the 16 bytes of the static array, in memory order; `msg_callback` says whether one is
-- set. The radio is a state of its own.
pub record Handler (aes : Aes) : Type 0 where
  pub iv : List ℕ
  pub aes_ctx : aes.Ctx
  pub msg_callback : Bool
  pub messages : Messages
  pub received : Messages

-- `PacketHandler::clean` at the time `now`: the outgoing packets whose time is up are dropped.
unfoldable pub unexpired : ℕ → Messages → Messages
unexpired now [] = []
unexpired now ((entry, pkts) ∷ rest) =
    if leb entry.expiration now then unexpired now rest else (entry, pkts) ∷ unexpired now rest

module _ {aes : Aes} where
  -- `PacketHandler::init`; the key and the vector are cast to bytes as they lie in memory.
  unfoldable pub init : Handler aes → Handler aes
  init h = record h { aes_ctx = aes.init_ctx_iv (store_words aes_key) h.iv }

  unfoldable pub set_msg_callback : Bool → Handler aes → Handler aes
  set_msg_callback callback h = record h { msg_callback = callback }

  unfoldable pub clean : ℕ → Handler aes → Handler aes
  unfolding unexpired
  clean now h = record h { messages = unexpired now h.messages }
