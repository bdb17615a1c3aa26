-- ===== src/UnixSocket/Laws.antt =====
-- What becomes of the bytes that are sent to the client.
use hydro_lo_ra_shield.Base.{
  ℕ, suc, ◌≡◌, ◌≢◌, refl, sym, ap, ◌∙◌, true, false, List, [], ◌∷◌, ◌++◌, append_assoc, append-nil,
}
use hydro_lo_ra_shield.UnixSocket.{
  fd, minus_one, Os, Socket, send_data, accept_client, take_client, flush, is_zero,
}

abbrev pub concat : List (List ℕ) → List ℕ
concat [] = []
concat (d ∷ ds) = d ++ concat ds

-- The system after calls of `write` on -1.
abbrev pub write_each : (os : Os) → List (List ℕ) → os.World → os.World
write_each os [] world = world
write_each os (d ∷ ds) world = write_each os ds (os.write minus_one d world).1

module _ {os : Os} where
  -- The calls of `send_data`, one after the other.
  abbrev pub send_each : List (List ℕ) → Socket os → Socket os
  send_each [] s = s
  send_each (d ∷ ds) s = send_each ds (send_data d s)

  send_each-buffer :
      (ds : List (List ℕ)) (s : Socket os)
      → s.client_sock_fd ≡ fd 0
      → send_each ds s ≡ record s { buffer = s.buffer ++ concat ds }
  unfolding send_data is_zero
  send_each-buffer [] s e = ap (λ b. record s { buffer = b }) (sym (append-nil s.buffer))
  send_each-buffer (d ∷ ds) s e =
      ap (send_each ds) (rw e refl)
      ∙ send_each-buffer ds (record s { buffer = s.buffer ++ d }) e
      ∙ ap (λ b. record s { buffer = b }) (append_assoc s.buffer d (concat ds))

  accept_client-buffer :
      (l : List ℕ) (s : Socket os) (n : ℕ) (world : os.World)
      → l ≢ []
      → os.accept s.socket_fd s.world ≡ (fd (suc n), world)
      → accept_client (record s { buffer = l }) ≡ (
        true,
        record s {
          client_sock_fd = fd (suc n);
          buffer = [];
          world = (os.write (fd (suc n)) l world).1;
        },
      )
  unfolding accept_client take_client flush send_data is_zero
  accept_client-buffer [] s n world some_bytes accepted = absurd (some_bytes refl)
  accept_client-buffer (b ∷ bs) s n world some_bytes accepted =
      ap (take_client (record s { buffer = b ∷ bs })) accepted

  -- The bytes sent while no client is connected, with those that are in the buffer before them,
  -- reach the client that is accepted next: in one write, in the order of the calls; and the
  -- buffer is empty then.
  pub accept_client-send_each :
      (ds : List (List ℕ)) (s : Socket os) (n : ℕ) (world : os.World)
      → s.client_sock_fd ≡ fd 0
      → s.buffer ++ concat ds ≢ []
      → os.accept s.socket_fd s.world ≡ (fd (suc n), world)
      → accept_client (send_each ds s) ≡ (
        true,
        record s {
          client_sock_fd = fd (suc n);
          buffer = [];
          world = (os.write (fd (suc n)) (s.buffer ++ concat ds) world).1;
        },
      )
  accept_client-send_each ds s n world e some_bytes accepted =
      ap accept_client (send_each-buffer ds s e)
      ∙ accept_client-buffer (s.buffer ++ concat ds) s n world some_bytes accepted

  send_each_lost :
      (ds : List (List ℕ)) (s : Socket os)
      → s.client_sock_fd ≡ minus_one
      → send_each ds s ≡ record s { world = write_each os ds s.world }
  unfolding send_data is_zero
  send_each_lost [] s e = refl
  send_each_lost (d ∷ ds) s e =
      ap (send_each ds) (rw e refl)
      ∙ send_each_lost ds (record s { world = (os.write minus_one d s.world).1 }) e

  -- When `accept` fails, `client_thread` returns and the descriptor stays -1. Each of the messages
  -- that are sent after that is written to the descriptor -1, in their order; none of it is kept, and
  -- nothing else of the object changes.
  pub accept_client_failed :
      (ds : List (List ℕ)) (s : Socket os) (world : os.World)
      → os.accept s.socket_fd s.world ≡ (minus_one, world)
      → ((accept_client s).0 ≡ false)
        × (send_each ds (accept_client s).1
            ≡ record s { client_sock_fd = minus_one; world = write_each os ds world })
  unfolding accept_client take_client
  accept_client_failed ds s world refused =
      let after : Socket os = record s { client_sock_fd = minus_one; world = world } in
      let stopped : accept_client s ≡ (false, after) = ap (take_client s) refused in
      (ap (λ r. r.0) stopped, ap (λ r. send_each ds r.1) stopped ∙ send_each_lost ds after refl)
