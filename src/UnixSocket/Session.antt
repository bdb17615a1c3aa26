-- ===== src/UnixSocket/Session.antt =====
-- src/unix-socket.cpp: the socket's thread, `socket_thread` with `client_thread`, while other threads
-- call `send_data` and `stop`. A step of the thread is what it does up to the next point where
-- the others' calls make a difference; a call of `send_data` is one step.
pub mod Sent
pub mod Order
pub mod Ends
use hydro_lo_ra_shield.Base.{ℕ, zero, suc, Bool, true, false, List, [], ◌∷◌, ◌++◌, if◌then◌else◌}
use hydro_lo_ra_shield.UnixSocket.{
  Fd, fd, minus_one, Os, Socket, is_zero, stop, send_data, read_client, disconnect,
}

-- Where the thread is: in `socket_thread` before the test of `m_running`, before `select`, and
-- before `client_thread`; in `client_thread` after `accept`, after the write of the buffer, before
-- the test of its loop, before `read`, and behind the loop; or at its end.
pub data Place : Type 0 where
  selecting polling arrived accepted flushed reading receiving leaving ended : Place

-- The object and its thread; `called` is what `send_data` was called with, by others than the
-- thread, from the start on.
pub record Session (os : Os) : Type 0 where
  pub socket : Socket os
  pub place : Place
  pub called : List ℕ

-- Whether a descriptor may be that of a client.
unfoldable pub is_client : Fd → Bool
is_client (fd zero) = false
is_client (fd (suc n)) = true
is_client minus_one = false

-- The system with a log of the bytes that are handed to its `write` for a client.
abbrev pub logged : Os → Os
logged os = record {
  World = os.World × List ℕ;
  unlink = λ path w. (os.unlink path w.0, w.1);
  socket = λ w. ((os.socket w.0).0, ((os.socket w.0).1, w.1));
  set_nonblocking = λ f w. (os.set_nonblocking f w.0, w.1);
  bind = λ f path w. ((os.bind f path w.0).0, ((os.bind f path w.0).1, w.1));
  listen = λ f backlog w. ((os.listen f backlog w.0).0, ((os.listen f backlog w.0).1, w.1));
  select = λ f w. ((os.select f w.0).0, ((os.select f w.0).1, w.1));
  accept = λ f w. ((os.accept f w.0).0, ((os.accept f w.0).1, w.1));
  write = λ f d w.
      ((os.write f d w.0).0, ((os.write f d w.0).1, if is_client f then w.1 ++ d else w.1));
  read = λ f max_read w. ((os.read f max_read w.0).0, ((os.read f max_read w.0).1, w.1));
  close = λ f w. (os.close f w.0, w.1);
}

module _ {os : Os} where
  unfoldable pub call_send : List ℕ → Session os → Session os
  unfolding send_data
  call_send d s = record s { socket = send_data d s.socket; called = s.called ++ d }

  unfoldable pub call_stop : Session os → Session os
  unfolding stop
  call_stop s = record s { socket = stop s.socket }

  -- What `accept` has returned.
  unfoldable pub accepting : Fd × os.World → Session os → Session os
  accepting (minus_one, world) s = record s {
    socket = record s.socket { client_sock_fd = minus_one; world = world };
    place = selecting;
  }
  accepting (fd n, world) s = record s {
    socket = record s.socket { client_sock_fd = fd n; world = world };
    place = accepted;
  }

  -- `select`.
  unfoldable pub select_round : Session os → Session os
  select_round s =
      let (incoming, world) = os.select s.socket.socket_fd s.socket.world in
      record s {
        socket = record s.socket { world = world };
        place = if incoming then arrived else selecting;
      }

  -- `if (m_buffer.size() > 0)`, with the `send_data` under it, for the bytes of the buffer.
  unfoldable pub flush_bytes : List ℕ → Session os → Session os
  unfolding send_data
  flush_bytes [] s = record s { place = reading }
  flush_bytes (b ∷ bs) s = record s { socket = send_data (b ∷ bs) s.socket; place = flushed }

  -- `read`, and the callback with what it has read.
  unfoldable pub read_round : Session os → Session os
  unfolding read_client
  read_round s =
      let ((call, goes_on), after) = read_client s.socket in
      record s { socket = after; place = if goes_on then reading else leaving }

  -- The step of the thread at each place.
  unfoldable pub thread_at : Place → Session os → Session os
  unfolding select_round accepting flush_bytes read_round disconnect
  thread_at selecting s = record s { place = if s.socket.running then polling else ended }
  thread_at polling s = select_round s
  thread_at arrived s = accepting (os.accept s.socket.socket_fd s.socket.world) s
  thread_at accepted s = flush_bytes s.socket.buffer s
  thread_at flushed s = record s { socket = record s.socket { buffer = [] }; place = reading }
  thread_at reading s = record s { place = if s.socket.running then receiving else leaving }
  thread_at receiving s = read_round s
  thread_at leaving s = record s { socket = disconnect s.socket; place = selecting }
  thread_at ended s = s

  unfoldable pub thread_step : Session os → Session os
  unfolding thread_at
  thread_step s = thread_at s.place s

-- The thread of a socket that has just been started.
abbrev pub started : {os : Os} → Socket os → Session os
started socket = record { socket = socket; place = selecting; called = [] }

-- The runs of the thread, with the calls of the other threads in between; the number is that of the
-- thread's own steps.
pub data Runs {os : Os} : ℕ → Session os → Session os → Type 0 where
  done : (s : Session os) → Runs 0 s s
  steps : (n : ℕ) (s t : Session os) → Runs n s t → Runs (suc n) s (thread_step t)
  sends : (d : List ℕ) (n : ℕ) (s t : Session os) → Runs n s t → Runs n s (call_send d t)
  stops : (n : ℕ) (s t : Session os) → Runs n s t → Runs n s (call_stop t)
