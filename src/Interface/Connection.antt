-- ===== src/Interface/Connection.antt =====
-- src/InterfaceConnection.cpp: the object that owns the socket.
use hydro_lo_ra_shield.Base.{ℕ, List, [], ◌∷◌, Option, some}
use hydro_lo_ra_shield.Base.Fault.{◌>>=◌}
use hydro_lo_ra_shield.UnixSocket.{Os, Socket, unix_socket, start, stop, send_data}

-- "/tmp/hydro.sock".
abbrev pub hydro_sock : List ℕ
hydro_sock =
    47 ∷ 116 ∷ 109 ∷ 112 ∷ 47 ∷ 104 ∷ 121 ∷ 100 ∷ 114 ∷ 111 ∷ 46 ∷ 115 ∷ 111 ∷ 99 ∷ 107 ∷ []

module _ {os : Os} where
  -- The constructor; `self` and `dispatch` are the addresses of the object and of
  -- `dispatch_on_data`, which calls `on_data`.
  unfoldable pub interface_connection : ℕ → ℕ → os.World → Option (Socket os)
  interface_connection self dispatch world = do
    made ← unix_socket hydro_sock 256 (some dispatch) (some self) world
    start made

  unfoldable pub send_to_client : List ℕ → Socket os → Socket os
  send_to_client bytes s = send_data bytes s

  unfoldable pub shutdown : Socket os → Socket os
  shutdown s = stop s
