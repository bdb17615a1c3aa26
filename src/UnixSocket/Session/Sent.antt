-- ===== src/UnixSocket/Session/Sent.antt =====
-- Where the bytes are that `send_data` was called with, at each place of the thread.
use mathlib.Core.Path.{subst}
use hydro_lo_ra_shield.Base.{
  ℕ, suc, ◌≡◌, ◌≢◌, refl, sym, ap, ap₂, ◌∙◌, Bool, true, false, List, [], ◌∷◌, ◌++◌, append-nil,
  append_assoc, if◌then◌else◌, Bool-cases, inl, inr,
}
use hydro_lo_ra_shield.UnixSocket.{
  Fd, fd, minus_one, Os, is_zero, stop, send_data, read_client, disconnect,
}
use hydro_lo_ra_shield.UnixSocket.Session.{
  Place, selecting, polling, arrived, accepted, flushed, reading, receiving, leaving, ended,
  Session, is_client, logged, call_send, call_stop, accepting, select_round, flush_bytes,
  read_round, thread_at,
}

abbrev pub IsClient : Fd → Type 0
IsClient f = (n : ℕ) × (f ≡ fd (suc n))

-- If the thread is at `accept`, the call of it gives a client's descriptor.
abbrev pub TakesClient : {os : Os} → Session os → Type 0
TakesClient {os} s = s.place ≡ arrived → IsClient (os.accept s.socket.socket_fd s.socket.world).0

-- The descriptor and the buffer at each place.
abbrev pub IsPlaced : Place → Fd → List ℕ → Type 0
IsPlaced selecting f b = f ≡ fd 0
IsPlaced polling f b = f ≡ fd 0
IsPlaced arrived f b = f ≡ fd 0
IsPlaced accepted f b = IsClient f
IsPlaced flushed f b = IsClient f
IsPlaced reading f b = IsClient f × (b ≡ [])
IsPlaced receiving f b = IsClient f × (b ≡ [])
IsPlaced leaving f b = IsClient f × (b ≡ [])
IsPlaced ended f b = f ≡ fd 0

-- The bytes of the buffer that are still to be written: none, where it is about to be cleared.
abbrev pub pending : Place → List ℕ → List ℕ
pending flushed b = []
pending selecting b = b
pending polling b = b
pending arrived b = b
pending receiving b = b
pending accepted b = b
pending reading b = b
pending leaving b = b
pending ended b = b

-- What has been handed to `write` for a client.
abbrev pub written : (os : Os) → Session (logged os) → List ℕ
written os s = s.socket.world.1

minus_one-IsClient : (n : ℕ) → minus_one ≢ fd (suc n)
minus_one-IsClient n e = cc

module _ (os : Os) (R : List ℕ → List ℕ → Type 0)
    (R-append : (a b d : List ℕ) → R a b → R (a ++ d) (b ++ d)) where
  abbrev pub IsSentAt : Place → Session (logged os) → Type 0
  IsSentAt place s =
      IsPlaced place s.socket.client_sock_fd s.socket.buffer
      × R (written os s ++ pending place s.socket.buffer) s.called

  abbrev pub IsSent : Session (logged os) → Type 0
  IsSent s = IsSentAt s.place s

  pub send-client :
      (d : List ℕ) (s : Session (logged os))
      → IsClient s.socket.client_sock_fd
      → (written os (call_send d s) ≡ written os s ++ d)
        × ((call_send d s).socket.buffer ≡ s.socket.buffer)
        × ((call_send d s).socket.client_sock_fd ≡ s.socket.client_sock_fd)
  unfolding call_send send_data is_zero is_client
  send-client d s (n, e) = simp e (refl, refl, refl)

  send-buffered :
      (d : List ℕ) (s : Session (logged os))
      → s.socket.client_sock_fd ≡ fd 0
      → (written os (call_send d s) ≡ written os s)
        × ((call_send d s).socket.buffer ≡ s.socket.buffer ++ d)
        × ((call_send d s).socket.client_sock_fd ≡ s.socket.client_sock_fd)
  unfolding call_send send_data is_zero is_client
  send-buffered d s e = simp e (refl, refl, refl)

  -- Bytes that are written at once, where none are pending.
  at_once :
      (d : List ℕ) (s : Session (logged os))
      → IsClient s.socket.client_sock_fd
      → R (written os s ++ []) s.called
      → R (written os (call_send d s) ++ []) (call_send d s).called
  unfolding call_send
  at_once d s client r =
      subst (λ (w : List ℕ). R w (s.called ++ d))
        (sym (append-nil (written os (call_send d s)) ∙ (send-client d s client).0))
        (R-append (written os s) s.called d
          (subst (λ (w : List ℕ). R w s.called) (append-nil (written os s)) r))

  buffered :
      (d : List ℕ) (s : Session (logged os))
      → s.socket.client_sock_fd ≡ fd 0
      → R (written os s ++ s.socket.buffer) s.called
      → (call_send d s).socket.client_sock_fd ≡ fd 0
        × R (written os (call_send d s) ++ (call_send d s).socket.buffer) (call_send d s).called
  unfolding call_send
  buffered d s none_there r =
      let (same, grown, still) = send-buffered d s none_there in
      (
        still ∙ none_there,
        subst (λ (w : List ℕ). R w (s.called ++ d))
            (sym (
              ap₂ (λ a b. a ++ b) same grown ∙ sym (append_assoc (written os s) s.socket.buffer d)))
            (R-append (written os s ++ s.socket.buffer) s.called d r),
      )

  call_send-IsClient :
      (d : List ℕ) (s : Session (logged os))
      → IsClient s.socket.client_sock_fd
      → IsClient (call_send d s).socket.client_sock_fd
  call_send-IsClient d s (n, e) = (n, (send-client d s (n, e)).2 ∙ e)

  -- A call where the client is there and the buffer is empty.
  connected :
      (d : List ℕ) (s : Session (logged os))
      → IsClient s.socket.client_sock_fd
      → s.socket.buffer ≡ []
      → R (written os s ++ s.socket.buffer) s.called
      → (IsClient (call_send d s).socket.client_sock_fd × ((call_send d s).socket.buffer ≡ []))
        × R (written os (call_send d s) ++ (call_send d s).socket.buffer) (call_send d s).called
  connected d s client empty r =
      let still_empty = (send-client d s client).1 ∙ empty in
      (
        (call_send-IsClient d s client, still_empty),
        subst (λ (b : List ℕ). R (written os (call_send d s) ++ b) (call_send d s).called)
            (sym still_empty)
            (at_once d s client (subst (λ (b : List ℕ). R (written os s ++ b) s.called) empty r)),
      )

  pub call_send-IsSent :
      (place : Place) (d : List ℕ) (s : Session (logged os))
      → place ≢ accepted
      → IsSentAt place s
      → IsSentAt place (call_send d s)
  call_send-IsSent selecting d s other (none_there, r) = buffered d s none_there r
  call_send-IsSent polling d s other (none_there, r) = buffered d s none_there r
  call_send-IsSent arrived d s other (none_there, r) = buffered d s none_there r
  call_send-IsSent ended d s other (none_there, r) = buffered d s none_there r
  call_send-IsSent accepted d s other h = absurd (other refl)
  call_send-IsSent flushed d s other (client, r) =
      (call_send-IsClient d s client, at_once d s client r)
  call_send-IsSent reading d s other ((client, empty), r) = connected d s client empty r
  call_send-IsSent receiving d s other ((client, empty), r) = connected d s client empty r
  call_send-IsSent leaving d s other ((client, empty), r) = connected d s client empty r

  accepting-IsSent :
      (s : Session (logged os)) (f : Fd) (world : os.World)
      → IsClient f
      → R (written os s ++ s.socket.buffer) s.called
      → IsSent (accepting (f, (world, written os s)) s)
  unfolding accepting
  accepting-IsSent s minus_one world (n, e) r = absurd (minus_one-IsClient n e)
  accepting-IsSent s (fd n) world client r = (client, r)

  -- The place after a test.
  either-IsSentAt :
      (b : Bool) (here there : Place) (s : Session (logged os))
      → IsSentAt here s
      → IsSentAt there s
      → IsSentAt (if b then here else there) s
  either-IsSentAt true here there s h k = h
  either-IsSentAt false here there s h k = k

  select_round-IsSent : (s : Session (logged os)) → IsSentAt selecting s → IsSent (select_round s)
  unfolding select_round
  select_round-IsSent s h =
      let (incoming, world) = os.select s.socket.socket_fd s.socket.world.0 in
      either-IsSentAt incoming arrived selecting
        (record s { socket = record s.socket { world = (world, written os s) } }) h h

  flush_bytes-IsSent :
      (b : List ℕ) (s : Session (logged os))
      → s.socket.buffer ≡ b
      → IsSentAt accepted s
      → IsSent (flush_bytes b s)
  unfolding flush_bytes call_send
  flush_bytes-IsSent [] s e (client, r) = ((client, e), r)
  flush_bytes-IsSent (b ∷ bs) s e (client, r) = (
    call_send-IsClient (b ∷ bs) s client,
    subst (λ (w : List ℕ). R w s.called)
        (sym (
          append-nil (written os (call_send (b ∷ bs) s))
          ∙ (send-client (b ∷ bs) s client).0
          ∙ ap (λ x. written os s ++ x) (sym e)))
        r,
  )

  read_round-IsSent : (s : Session (logged os)) → IsSentAt receiving s → IsSent (read_round s)
  unfolding read_round read_client
  read_round-IsSent s h = elim (Bool-cases (read_client s.socket).0.1) [
    | inl goes_on ↦ simp goes_on h
    | inr ends ↦ simp ends h
  ]

  pub thread_at-IsSent :
      (place : Place) (s : Session (logged os))
      → TakesClient s
      → s.place ≡ place
      → IsSentAt place s
      → IsSent (thread_at place s)
  unfolding thread_at disconnect
  thread_at-IsSent selecting s takes at h = either-IsSentAt s.socket.running polling ended s h h
  thread_at-IsSent polling s takes at h = select_round-IsSent s h
  thread_at-IsSent arrived s takes at (none_there, r) =
      let (f, world) = os.accept s.socket.socket_fd s.socket.world.0 in
      accepting-IsSent s f world (takes at) r
  thread_at-IsSent accepted s takes at h = flush_bytes-IsSent s.socket.buffer s refl h
  thread_at-IsSent flushed s takes at (client, r) = ((client, refl), r)
  thread_at-IsSent reading s takes at h = either-IsSentAt s.socket.running receiving leaving s h h
  thread_at-IsSent receiving s takes at h = read_round-IsSent s h
  thread_at-IsSent leaving s takes at (client_left, r) = (refl, r)
  thread_at-IsSent ended s takes at h = subst (λ (p : Place). IsSentAt p s) (sym at) h

  written-stop : (s : Session (logged os)) → written os (call_stop s) ≡ written os s
  unfolding call_stop stop
  written-stop s = elim (Bool-cases (is_zero s.socket.client_sock_fd)) [
    | inl none_there ↦ rw none_there refl
    | inr client ↦ rw client refl
  ]

  pub call_stop-IsSent :
      (place : Place) (s : Session (logged os)) → IsSentAt place s → IsSentAt place (call_stop s)
  unfolding call_stop stop
  call_stop-IsSent place s (placed, r) = (
    placed,
    subst (λ (w : List ℕ). R (w ++ pending place s.socket.buffer) s.called) (sym (written-stop s))
        r,
  )
