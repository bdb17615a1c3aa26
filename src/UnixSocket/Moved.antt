-- ===== src/UnixSocket/Moved.antt =====
-- src/unix-socket.hpp: what a move leaves out.
use hydro_lo_ra_shield.Base.{
  ℕ, ◌≤◌, ◌≡◌, refl, true, false, List, [], ◌∷◌, ◌↔◌, none, some, arith, length,
}
use hydro_lo_ra_shield.UnixSocket.{
  Fd, ReadStatus, failed, bytes, Os, Socket, after_read, read_client, move, move_assign,
}

-- `read` returns no more bytes than it is asked for.
abbrev pub ReadsAtMost : Os → Type 0
ReadsAtMost os =
    (f : Fd) (n : ℕ) (world : os.World) (l : List ℕ)
    → (os.read f n world).0 ≡ bytes l
    → length l ≤ n

module _ {os : Os} where
  nothing_read :
      (status : ReadStatus) (s : Socket os)
      → ((l : List ℕ) → status ≡ bytes l → length l ≤ 0)
      → ((after_read status s).0 ≡ none) × ((after_read status s).1 ≡ true ↔ status ≡ failed)
  unfolding after_read
  nothing_read failed s few = (refl, ((λ e. refl), (λ e. refl)))
  nothing_read (bytes []) s few = (refl, ((λ e. cc), (λ e. cc)))
  nothing_read (bytes (b ∷ bs)) s few = absurd (omega (arith, few (b ∷ bs) refl))

  -- A socket that is made by moving another one has not the bytes that were buffered there, and,
  -- whatever its other fields become, reads at most 0 bytes at a time: its loop never calls the
  -- callback, and leaves the client at the first read that does not fail. The thread of the
  -- other, if one runs, is told to stop.
  pub move-read_client :
      (other : Socket os)
      → ReadsAtMost os
      → (new : Socket os) × (left : Socket os) × (move other ≡ some (new, left))
        × (new.buffer ≡ [])
        × (left.running ≡ false)
        × ((s : Socket os)
            → s.max_read ≡ new.max_read
            → ((read_client s).0.0 ≡ none)
              × ((read_client s).0.1 ≡ true ↔ (os.read s.client_sock_fd 0 s.world).0 ≡ failed))
  unfolding move move_assign read_client
  move-read_client other at_most = (
    _,
    _,
    refl,
    refl,
    refl,
    λ s e. simp e (
        nothing_read (os.read s.client_sock_fd 0 s.world).0 s
          (λ l r. at_most s.client_sock_fd 0 s.world l r)),
  )
