-- ===== src/Main.antt =====
-- main.cpp: the start of the packet handler, the callback that forwards a message to the client,
-- and one round of the housekeeping thread.
pub mod Forward
pub mod Returns
pub mod System
pub mod Request
use hydro_lo_ra_shield.Base.{ℕ, Bool, true, List, [], ◌∷◌, Option, some, load_bytes}
use hydro_lo_ra_shield.Base.Fault.{◌>>=◌}
use hydro_lo_ra_shield.Aes.{Aes}
use hydro_lo_ra_shield.Padding.{Delivery}
use hydro_lo_ra_shield.Handler.{Handler, init, set_msg_callback, clean}
use hydro_lo_ra_shield.Handler.Poll.{poll}
use hydro_lo_ra_shield.UnixSocket.{Os, Socket}
use hydro_lo_ra_shield.Interface.Connection.{send_to_client}

module _ {aes : Aes} where
  -- `packetHandler.init()` and the callback.
  unfoldable pub start_up : Handler aes → Handler aes
  start_up h = set_msg_callback true (init h)

module _ {os : Os} where
  -- The callback: `server.sendToClient(data, len)`. The read past the buffer is a fault.
  unfoldable pub forward : Delivery → Socket os → Option (Socket os)
  forward d s = do data_bytes ← load_bytes 0 d.len d.bytes; some (send_to_client data_bytes s)

  unfoldable pub forward_all : List Delivery → Socket os → Option (Socket os)
  unfolding forward
  forward_all [] s = some s
  forward_all (d ∷ ds) s = do next ← forward d s; forward_all ds next

module _ {aes : Aes} {os : Os} where
  -- One round of the housekeeping thread at the time `now`.
  unfoldable pub house_keeping :
      (ℕ → ℕ) → ℕ → Handler aes → Socket os → Option (Handler aes × Socket os)
  unfolding forward_all
  house_keeping dangling now h s = do
    (polled, out) ← poll dangling h
    told ← forward_all out s
    some (clean now polled, told)
