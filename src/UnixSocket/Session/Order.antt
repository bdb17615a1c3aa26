-- ===== src/UnixSocket/Session/Order.antt =====
-- What becomes of the bytes that `send_data` is called with, while the thread runs.
use mathlib.Core.Path.{subst}
use mathlib.Core.List.{Permᴰ}
use mathlib.Core.List.Permᴰ
use hydro_lo_ra_shield.Base.{
  ap₂, ℕ, suc, ◌≡◌, ◌≢◌, refl, sym, ap, ◌∙◌, true, List, [], ◌∷◌, ◌++◌, append_assoc,
}
use hydro_lo_ra_shield.UnixSocket.{Fd, fd, Os, Socket, send_data, is_zero}
use hydro_lo_ra_shield.UnixSocket.Session.{
  Place, selecting, polling, arrived, accepted, flushed, reading, receiving, leaving, ended,
  Session, is_client, logged, accepting, select_round, flush_bytes, thread_at, call_send, call_stop,
  thread_step, started, Runs, done, steps, sends, stops,
}
use hydro_lo_ra_shield.UnixSocket.Session.Sent.{
  TakesClient, written, pending, IsSentAt, IsSent, send-client, call_send-IsSent, thread_at-IsSent,
  call_stop-IsSent,
}

-- No call of `send_data` comes between `accept` and the write of the buffer.
abbrev pub NoOvertaking : {os : Os} {n : ℕ} {s t : Session os} → Runs n s t → Type 0
NoOvertaking (done s) = Unit
NoOvertaking (steps n s t r) = NoOvertaking r
NoOvertaking (sends d n s t r) = (t.place ≢ accepted) × NoOvertaking r
NoOvertaking (stops n s t r) = NoOvertaking r

-- Each `accept` in the run gives a client's descriptor.
abbrev pub Accepts : {os : Os} {n : ℕ} {s t : Session os} → Runs n s t → Type 0
Accepts (done s) = Unit
Accepts (steps n s t r) = TakesClient t × Accepts r
Accepts (sends d n s t r) = Accepts r
Accepts (stops n s t r) = Accepts r

-- The object of a socket with no client, nothing in its buffer and nothing written yet.
abbrev pub IsFresh : (os : Os) → Socket (logged os) → Type 0
IsFresh os socket = (socket.client_sock_fd ≡ fd 0) × (socket.buffer ≡ []) × (socket.world.1 ≡ [])

-- What `send_data` was called with has been written to a client or is pending, in its order.
abbrev pub InOrder : (os : Os) → Session (logged os) → Type 0
InOrder os s = written os s ++ pending s.place s.socket.buffer ≡ s.called

ordered_append : (a b d : List ℕ) → a ≡ b → a ++ d ≡ b ++ d
ordered_append a b d e = ap (λ x. x ++ d) e

permuted_append : (a b d : List ℕ) → Permᴰ a b → Permᴰ (a ++ d) (b ++ d)
permuted_append a b d m = Permᴰ.append_right d m

-- Bytes that overtake those of a buffer.
overtake : (w b d c : List ℕ) → Permᴰ (w ++ b) c → Permᴰ ((w ++ d) ++ b) (c ++ d)
overtake w b d c m =
    subst (λ (x : List ℕ). Permᴰ x (c ++ d)) (sym (append_assoc w d b))
      (Permᴰ.trans (Permᴰ.append_left w (Permᴰ.append_comm d b))
        (subst (λ (x : List ℕ). Permᴰ x (c ++ d)) (append_assoc w b d) (Permᴰ.append_right d m)))

module _ (os : Os) where
  Runs-InOrder :
      {n : ℕ} {s t : Session (logged os)} (r : Runs n s t)
      → Accepts r
      → NoOvertaking r
      → IsSent os ◌≡◌ ordered_append s
      → IsSent os ◌≡◌ ordered_append t
  unfolding thread_step call_send call_stop
  Runs-InOrder (done s) accepts quiet h = h
  Runs-InOrder (steps n s t r) accepts quiet h =
      thread_at-IsSent os ◌≡◌ ordered_append t.place t accepts.0 refl
        (Runs-InOrder r accepts.1 quiet h)
  Runs-InOrder (sends d n s t r) accepts quiet h =
      call_send-IsSent os ◌≡◌ ordered_append t.place d t quiet.0 (Runs-InOrder r accepts quiet.1 h)
  Runs-InOrder (stops n s t r) accepts quiet h =
      call_stop-IsSent os ◌≡◌ ordered_append t.place t (Runs-InOrder r accepts quiet h)

  -- From the start of a fresh socket on, in a run in which no `accept` fails, as long as no call of
  -- `send_data` comes between `accept` and the write of the buffer: the bytes that were handed to
  -- `write` for clients, followed by those that are still pending, are exactly those of all the
  -- calls, in their order, whatever else the clients and the system do.
  pub called-InOrder :
      {n : ℕ} {t : Session (logged os)} (socket : Socket (logged os))
      (r : Runs n (started socket) t)
      → Accepts r
      → IsFresh os socket
      → NoOvertaking r
      → InOrder os t
  called-InOrder socket r accepts fresh quiet =
      (Runs-InOrder r accepts quiet (fresh.0, ap₂ (λ w b. w ++ b) fresh.2 fresh.1)).1

  overtaking-IsSent :
      (d : List ℕ) (s : Session (logged os))
      → IsSentAt os Permᴰ permuted_append accepted s
      → IsSentAt os Permᴰ permuted_append accepted (call_send d s)
  unfolding call_send
  overtaking-IsSent d s (client, m) =
      let (grown, same, still) = send-client os Permᴰ permuted_append d s client in
      (
        (client.0, still ∙ client.1),
        subst (λ (x : List ℕ). Permᴰ x (s.called ++ d)) (sym (ap₂ (λ a b. a ++ b) grown same))
            (overtake (written os s) s.socket.buffer d s.called m),
      )

  any_call-IsSent :
      (place : Place) (d : List ℕ) (s : Session (logged os))
      → IsSentAt os Permᴰ permuted_append place s
      → IsSentAt os Permᴰ permuted_append place (call_send d s)
  any_call-IsSent accepted d s h = overtaking-IsSent d s h
  any_call-IsSent selecting d s h =
      call_send-IsSent os Permᴰ permuted_append selecting d s (λ e. cc) h
  any_call-IsSent polling d s h = call_send-IsSent os Permᴰ permuted_append polling d s (λ e. cc) h
  any_call-IsSent arrived d s h = call_send-IsSent os Permᴰ permuted_append arrived d s (λ e. cc) h
  any_call-IsSent receiving d s h =
      call_send-IsSent os Permᴰ permuted_append receiving d s (λ e. cc) h
  any_call-IsSent flushed d s h = call_send-IsSent os Permᴰ permuted_append flushed d s (λ e. cc) h
  any_call-IsSent reading d s h = call_send-IsSent os Permᴰ permuted_append reading d s (λ e. cc) h
  any_call-IsSent leaving d s h = call_send-IsSent os Permᴰ permuted_append leaving d s (λ e. cc) h
  any_call-IsSent ended d s h = call_send-IsSent os Permᴰ permuted_append ended d s (λ e. cc) h

  Runs-IsPermuted :
      {n : ℕ} {s t : Session (logged os)} (r : Runs n s t)
      → Accepts r
      → IsSent os Permᴰ permuted_append s
      → IsSent os Permᴰ permuted_append t
  unfolding thread_step call_send call_stop
  Runs-IsPermuted (done s) accepts h = h
  Runs-IsPermuted (steps n s t r) accepts h =
      thread_at-IsSent os Permᴰ permuted_append t.place t accepts.0 refl
        (Runs-IsPermuted r accepts.1 h)
  Runs-IsPermuted (sends d n s t r) accepts h =
      any_call-IsSent t.place d t (Runs-IsPermuted r accepts h)
  Runs-IsPermuted (stops n s t r) accepts h =
      call_stop-IsSent os Permᴰ permuted_append t.place t (Runs-IsPermuted r accepts h)

  -- From the start of a fresh socket on, in a run in which no `accept` fails, whenever the other
  -- threads call `send_data` and `stop`: the bytes that were handed to `write` for clients and those
  -- that are still pending are together those of all the calls, each as often as there, whatever
  -- else the clients and the system do.
  pub called_permuted :
      {n : ℕ} {t : Session (logged os)} (socket : Socket (logged os))
      (r : Runs n (started socket) t)
      → Accepts r
      → IsFresh os socket
      → Permᴰ (written os t ++ pending t.place t.socket.buffer) t.called
  called_permuted socket r accepts fresh =
      (Runs-IsPermuted r accepts (
        fresh.0,
        subst (λ (b : List ℕ). Permᴰ b []) (sym (ap₂ (λ w b. w ++ b) fresh.2 fresh.1)) Permᴰ.nil,
      )).1

  -- A client has been accepted, with bytes in the buffer.
  abbrev taken : List ℕ → Socket (logged os) → ℕ → os.World → Session (logged os)
  taken b socket n world = record {
    socket = record socket { buffer = b; client_sock_fd = fd (suc n); world = (world, []) };
    place = accepted;
    called = b;
  }

  take_client_lem :
      (b : List ℕ) (socket : Socket (logged os)) (n : ℕ)
      → IsFresh os socket
      → socket.running ≡ true
      → (os.select socket.socket_fd socket.world.0).0 ≡ true
      → (os.accept socket.socket_fd (os.select socket.socket_fd socket.world.0).1).0 ≡ fd (suc n)
      → thread_step (thread_step (thread_step (call_send b (started socket))))
        ≡ taken b socket n
            (os.accept socket.socket_fd (os.select socket.socket_fd socket.world.0).1).1
  unfolding thread_step thread_at select_round accepting call_send send_data is_zero is_client
  take_client_lem b socket n (none_there, empty, unwritten) runs incoming client =
      simp (none_there, empty, unwritten, runs, incoming)
        (ap
          (λ (f : Fd).
            accepting
              (
                f,
                ((os.accept socket.socket_fd (os.select socket.socket_fd socket.world.0).1).1, []),
              )
              (record {
                socket = record socket {
                  running = true;
                  buffer = b;
                  client_sock_fd = fd 0;
                  world = ((os.select socket.socket_fd socket.world.0).1, []);
                };
                place = arrived;
                called = b;
              }))
          client)

  -- A running socket with no client, nothing written and some bytes in its buffer, which were sent
  -- while it had no client: when `select` announces a client, which `accept` takes, and another call
  -- of `send_data` comes right after `accept`, the bytes of the later call are handed to `write`
  -- before the buffered ones.
  pub overtaken :
      (b : ℕ) (bs d : List ℕ) (socket : Socket (logged os)) (n : ℕ)
      → IsFresh os socket
      → socket.running ≡ true
      → (os.select socket.socket_fd socket.world.0).0 ≡ true
      → (os.accept socket.socket_fd (os.select socket.socket_fd socket.world.0).1).0 ≡ fd (suc n)
      → (t : Session (logged os)) × Runs 4 (started socket) t
        × (t.called ≡ (b ∷ bs) ++ d)
        × (written os t ≡ d ++ b ∷ bs)
  unfolding thread_step thread_at flush_bytes call_send send_data is_zero is_client
  overtaken b bs d socket n fresh runs incoming client =
      let world = (os.select socket.socket_fd socket.world.0).1 in
      let u = taken (b ∷ bs) socket n (os.accept socket.socket_fd world).1 in
      let thrice : Runs 3 (started socket) u =
        subst (Runs 3 (started socket))
          (take_client_lem (b ∷ bs) socket n fresh runs incoming client)
          (steps 2 _ _ (steps 1 _ _ (steps 0 _ _ (sends (b ∷ bs) 0 _ _ (done _))))) in
      (thread_step (call_send d u), steps 3 _ _ (sends d 3 _ u thrice), refl, refl)
