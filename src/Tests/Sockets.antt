-- ===== src/Tests/Sockets.antt =====
-- The theorems on the thread of the socket, at concrete inputs.
use mathlib.Core.List.{Permᴰ}
use hydro_lo_ra_shield.Base.{
  ℕ, zero, suc, ◌≡◌, ◌≢◌, ◌↔◌, refl, true, false, [], ◌∷◌, ◌++◌, none, some, arith, length,
}
use hydro_lo_ra_shield.UnixSocket.{fd, failed, Os, Socket, member_defaults, read_client, move}
use hydro_lo_ra_shield.UnixSocket.Moved.{move-read_client}
use hydro_lo_ra_shield.UnixSocket.Session.{
  logged, accepted, ended, Session, call_send, call_stop, thread_step, started, Runs, done, steps,
  sends,
}
use hydro_lo_ra_shield.UnixSocket.Session.Sent.{written, pending}
use hydro_lo_ra_shield.UnixSocket.Session.Order.{
  Accepts, NoOvertaking, InOrder, called-InOrder, called_permuted, overtaken,
}
use hydro_lo_ra_shield.UnixSocket.Session.Ends.{call_stop-ended}

-- A system that has a client to accept at any time, and keeps nothing.
abbrev ready_os : Os
ready_os = record {
  World = ℕ;
  unlink = λ path w. w;
  socket = λ w. (fd 3, w);
  set_nonblocking = λ f w. w;
  bind = λ f path w. (true, w);
  listen = λ f backlog w. (true, w);
  select = λ f w. (true, w);
  accept = λ f w. (fd 7, w);
  write = λ f d w. (some (length d), w);
  read = λ f max_read w. (failed, w);
  close = λ f w. w;
}

-- A socket that has just been started; its log is empty.
abbrev idle_socket : Socket ready_os
idle_socket = record (member_defaults 0) {
  running = true;
  joinable = true;
  socket_fd = fd 3;
  max_read = 256;
}

abbrev new_socket : Socket (logged ready_os)
new_socket = record (member_defaults (0, [])) {
  running = true;
  joinable = true;
  socket_fd = fd 3;
  max_read = 256;
}

-- Two bytes are buffered, a client is announced and accepted, gets them, and then a third one.
abbrev s1 : Session (logged ready_os)
s1 = call_send (1 ∷ 2 ∷ []) (started new_socket)

abbrev s2 : Session (logged ready_os)
s2 = thread_step (thread_step (thread_step s1))

abbrev s3 : Session (logged ready_os)
s3 = thread_step s2

abbrev s4 : Session (logged ready_os)
s4 = call_send (3 ∷ []) s3

abbrev s5 : Session (logged ready_os)
s5 = thread_step s4

abbrev quiet_run : Runs 5 (started new_socket) s5
quiet_run = steps 4 _ s4 (
    sends (3 ∷ []) 4 _ s3 (
      steps 3 _ s2 (
        steps 2 _ (thread_step (thread_step s1)) (
          steps 1 _ (thread_step s1)
            (steps 0 _ s1 (sends (1 ∷ 2 ∷ []) 0 _ _ (done (started new_socket))))))))

quiet_run-Accepts : Accepts quiet_run
unfolding call_send thread_step
quiet_run-Accepts = (
  (λ e. (6, refl)),
  ((λ e. (6, refl)), ((λ e. (6, refl)), ((λ e. (6, refl)), ((λ e. (6, refl)), tt)))),
)

s3-place : s3.place ≢ accepted
unfolding call_send thread_step
s3-place e = cc

quiet_run-NoOvertaking : NoOvertaking quiet_run
quiet_run-NoOvertaking = ((λ e. s3-place e), ((λ e. cc), tt))

called-InOrder_example : InOrder ready_os s5
called-InOrder_example =
    called-InOrder ready_os new_socket quiet_run quiet_run-Accepts (refl, refl, refl)
      quiet_run-NoOvertaking

called_permuted_example : Permᴰ (written ready_os s5 ++ pending s5.place s5.socket.buffer) s5.called
called_permuted_example =
    called_permuted ready_os new_socket quiet_run quiet_run-Accepts (refl, refl, refl)

overtaken_example :
    (t : Session (logged ready_os)) × Runs 4 (started new_socket) t
    × (t.called ≡ (1 ∷ 2 ∷ []) ++ 3 ∷ [])
    × (written ready_os t ≡ (3 ∷ []) ++ 1 ∷ 2 ∷ [])
overtaken_example =
    overtaken ready_os 1 (2 ∷ []) (3 ∷ []) new_socket 6 (refl, refl, refl) refl refl refl

-- Seven steps after `stop`, from the state with the buffer still to be written.
abbrev told : ℕ → Session (logged ready_os)
told zero = call_stop s2
told (suc n) = thread_step (told n)

last_run : Runs 7 (call_stop s2) (told 7)
last_run = steps 6 _ _ (
    steps 5 _ _
      (steps 4 _ _ (steps 3 _ _ (steps 2 _ _ (steps 1 _ _ (steps 0 _ _ (done (call_stop s2))))))))

call_stop-ended_example : (told 7).place ≡ ended
call_stop-ended_example = call_stop-ended 7 s2 (told 7) last_run (omega arith)

move-read_client_example :
    (new : Socket ready_os) × (left : Socket ready_os) × (move idle_socket ≡ some (new, left))
    × (new.buffer ≡ [])
    × (left.running ≡ false)
    × ((s : Socket ready_os)
        → s.max_read ≡ new.max_read
        → ((read_client s).0.0 ≡ none)
          × ((read_client s).0.1 ≡ true ↔ (ready_os.read s.client_sock_fd 0 s.world).0 ≡ failed))
move-read_client_example = move-read_client idle_socket (λ f n world l e. cc)
