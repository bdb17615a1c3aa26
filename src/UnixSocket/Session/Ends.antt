-- ===== src/UnixSocket/Session/Ends.antt =====
-- `stop`: the socket's thread comes to its end, so that the join returns.
use hydro_lo_ra_shield.Base.{ℕ, suc, ◌-◌, ◌≤◌, ◌≡◌, refl, ◌∙◌, false, List, [], ◌∷◌, arith}
use hydro_lo_ra_shield.UnixSocket.{Fd, fd, minus_one, Os, Socket, stop, send_data, disconnect}
use hydro_lo_ra_shield.UnixSocket.Session.{
  polling, arrived, receiving, accepting, read_round, select_round, Place, selecting, accepted,
  flushed, reading, leaving, ended, Session, call_send, call_stop, flush_bytes, thread_at,
  thread_step, Runs, done, steps, sends, stops,
}

-- The steps that are left to a thread that has been told to stop.
abbrev pub rank : Place → ℕ
rank ended = 0
rank selecting = 1
rank leaving = 2
rank reading = 3
rank receiving = 4
rank flushed = 4
rank accepted = 5
rank arrived = 6
rank polling = 7

rank-ended : (place : Place) → rank place ≤ 0 → place ≡ ended
rank-ended ended h = refl
rank-ended selecting h = absurd (omega (arith, h))
rank-ended leaving h = absurd (omega (arith, h))
rank-ended reading h = absurd (omega (arith, h))
rank-ended flushed h = absurd (omega (arith, h))
rank-ended accepted h = absurd (omega (arith, h))
rank-ended receiving h = absurd (omega (arith, h))
rank-ended arrived h = absurd (omega (arith, h))
rank-ended polling h = absurd (omega (arith, h))

rank_le : (place : Place) → rank place ≤ 7
rank_le ended = omega arith
rank_le selecting = omega arith
rank_le leaving = omega arith
rank_le reading = omega arith
rank_le flushed = omega arith
rank_le accepted = omega arith
rank_le receiving = omega arith
rank_le arrived = omega arith
rank_le polling = omega arith

module _ {os : Os} where
  -- The thread of `t`, told to stop, has `n` steps fewer before it than `k`.
  abbrev IsEnding : ℕ → ℕ → Session os → Type 0
  IsEnding k n t = (t.socket.running ≡ false) × (rank t.place ≤ k - n)

  send_data-running : (d : List ℕ) (s : Socket os) → (send_data d s).running ≡ s.running
  unfolding send_data
  send_data-running d s = ground arith

  flush_bytes-IsEnding :
      (b : List ℕ) (k n : ℕ) (s : Session os)
      → s.socket.running ≡ false
      → 5 ≤ k - n
      → IsEnding k (suc n) (flush_bytes b s)
  unfolding flush_bytes
  flush_bytes-IsEnding [] k n s stopped h = (stopped, omega arith)
  flush_bytes-IsEnding (b ∷ bs) k n s stopped h =
      (send_data-running (b ∷ bs) s.socket ∙ stopped, omega arith)

  accepting-IsEnding :
      (r : Fd × os.World) (k n : ℕ) (s : Session os)
      → s.socket.running ≡ false
      → 6 ≤ k - n
      → IsEnding k (suc n) (accepting r s)
  unfolding accepting
  accepting-IsEnding (minus_one, world) k n s stopped h = (stopped, omega arith)
  accepting-IsEnding (fd m, world) k n s stopped h = (stopped, omega arith)

  thread_at-IsEnding :
      (place : Place) (k n : ℕ) (s : Session os)
      → s.socket.running ≡ false
      → s.place ≡ place
      → rank place ≤ k - n
      → IsEnding k (suc n) (thread_at place s)
  unfolding thread_at disconnect read_round select_round
  thread_at-IsEnding ended k n s stopped at h = (stopped, rw at (omega arith))
  thread_at-IsEnding selecting k n s stopped at h = ground arith
  thread_at-IsEnding polling k n s stopped at h = ground arith
  thread_at-IsEnding arrived k n s stopped at h =
      accepting-IsEnding (os.accept s.socket.socket_fd s.socket.world) k n s stopped h
  thread_at-IsEnding receiving k n s stopped at h = ground arith
  thread_at-IsEnding leaving k n s stopped at h = (stopped, omega arith)
  thread_at-IsEnding reading k n s stopped at h = ground arith
  thread_at-IsEnding flushed k n s stopped at h = (stopped, omega arith)
  thread_at-IsEnding accepted k n s stopped at h =
      flush_bytes-IsEnding s.socket.buffer k n s stopped h

  Runs-IsEnding :
      {n : ℕ} {s t : Session os}
      → Runs n s t
      → s.socket.running ≡ false
      → IsEnding (rank s.place) n t
  unfolding thread_step call_send call_stop stop
  Runs-IsEnding (done s) stopped = (stopped, omega arith)
  Runs-IsEnding (steps n s t r) stopped =
      let (still, few) = Runs-IsEnding r stopped in
      thread_at-IsEnding t.place (rank s.place) n t still refl few
  Runs-IsEnding (sends d n s t r) stopped =
      let (still, few) = Runs-IsEnding r stopped in (send_data-running d t.socket ∙ still, few)
  Runs-IsEnding (stops n s t r) stopped = let (still, few) = Runs-IsEnding r stopped in (refl, few)

  -- Wherever the thread is when `stop` is called, it is at its end after seven steps of its own, when
  -- each call of the system that it makes in them returns; whatever other threads send, and
  -- however often they call `stop`, in between.
  pub call_stop-ended :
      (n : ℕ) (s t : Session os) → Runs n (call_stop s) t → 7 ≤ n → t.place ≡ ended
  unfolding call_stop stop
  call_stop-ended n s t r enough =
      rank-ended t.place
        (let (still, few) = Runs-IsEnding r refl in omega (arith, few, rank_le s.place))
