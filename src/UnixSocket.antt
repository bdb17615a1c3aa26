-- ===== src/UnixSocket.antt =====
-- src/unix-socket.cpp and src/unix-socket.hpp: the class `UnixSocket`. The operating system is a
-- parameter. The thread's loops are cut into steps, between which another thread may call
-- `send_data` or `stop`; printing is left out.
pub mod Laws
pub mod Moved
pub mod Session
use hydro_lo_ra_shield.Base.{
  ℕ, zero, suc, Bool, true, false, List, [], ◌∷◌, ◌++◌, Option, none, some, ltb, if◌then◌else◌,
  length,
}

-- A descriptor, or -1.
pub data Fd : Type 0 where
  fd : ℕ → Fd
  minus_one : Fd

-- What `read` returns: -1, or the bytes, of which there are none at the end.
pub data ReadStatus : Type 0 where
  failed : ReadStatus
  bytes : List ℕ → ReadStatus

pub record Os : Type 1 where
  pub World : Type 0
  pub unlink : List ℕ → World → World
  -- `socket(AF_UNIX, SOCK_STREAM, 0)`.
  pub socket : World → Fd × World
  pub set_nonblocking : Fd → World → World
  -- Whether the call succeeds.
  pub bind : Fd → List ℕ → World → Bool × World
  pub listen : Fd → ℕ → World → Bool × World
  -- `select` for at most a second: whether it returns neither 0 nor -1.
  pub select : Fd → World → Bool × World
  pub accept : Fd → World → Fd × World
  -- -1 is `none`.
  pub write : Fd → List ℕ → World → Option ℕ × World
  pub read : Fd → ℕ → World → ReadStatus × World
  pub close : Fd → World → World

-- The object, with the system that it runs on. A pointer is `none` where it is null. `joinable`
-- says whether `m_thread` has a thread.
pub record Socket (os : Os) : Type 0 where
  pub running : Bool
  pub joinable : Bool
  pub buffer : List ℕ
  pub socket_fd : Fd
  pub client_sock_fd : Fd
  pub max_read : ℕ
  pub socket_path : List ℕ
  pub arg : Option ℕ
  pub callback : Option ℕ
  pub world : os.World

-- A call of the callback.
pub record Call : Type 0 where
  pub callback : Option ℕ
  pub arg : Option ℕ
  pub bytes : List ℕ

-- `m_client_sock_fd == 0`.
unfoldable pub is_zero : Fd → Bool
is_zero (fd zero) = true
is_zero (fd (suc n)) = false
is_zero minus_one = false

-- `sizeof(serv_addr.sun_path)`.
abbrev pub sun_path_size : ℕ
sun_path_size = 108

-- The calls of the constructor for the path; each failure is only printed.
unfoldable pub set_up : (os : Os) → List ℕ → os.World → Fd × os.World
set_up os path world =
    let (socket_fd, opened) = os.socket (os.unlink path world) in
    let bound = (os.bind socket_fd path (os.set_nonblocking socket_fd opened)).1 in
    (socket_fd, (os.listen socket_fd 1 bound).1)

module _ {os : Os} where
  -- The values of the fields before a constructor's own, ".socket" among them.
  abbrev pub member_defaults : os.World → Socket os
  member_defaults world = record {
    running = false;
    joinable = false;
    buffer = [];
    socket_fd = fd 0;
    client_sock_fd = fd 0;
    max_read = 0;
    socket_path = 46 ∷ 115 ∷ 111 ∷ 99 ∷ 107 ∷ 101 ∷ 116 ∷ [];
    arg = none;
    callback = none;
    world = world;
  }

  -- The constructor. A path that does not fit `sun_path` with its zero is written past it by
  -- `strcpy`: a fault.
  unfoldable pub unix_socket : List ℕ → ℕ → Option ℕ → Option ℕ → os.World → Option (Socket os)
  unfolding set_up
  unix_socket path max_read callback arg world =
      if ltb (length path) sun_path_size
      then (let (socket_fd, listening) = set_up os path world in
          some (record (member_defaults listening) {
            socket_path = path;
            max_read = max_read;
            callback = callback;
            arg = arg;
            socket_fd = socket_fd;
          }))
      else none

  -- Assigning to a thread object that has a thread ends the program: a fault.
  unfoldable pub start : Socket os → Option (Socket os)
  start s = if s.joinable then none else some (record s { running = true; joinable = true })

  -- `stop`, up to the join of the thread.
  unfoldable pub stop : Socket os → Socket os
  unfolding is_zero
  stop s =
      let left = if is_zero s.client_sock_fd then s.world else os.close s.client_sock_fd s.world in
      record s { running = false; world = os.unlink s.socket_path (os.close s.socket_fd left) }

  -- The join, once the thread has ended. Without a thread it throws.
  unfoldable pub join : Socket os → Option (Socket os)
  join s = if s.joinable then some (record s { joinable = false }) else none

  -- The length of the write is only printed.
  unfoldable pub send_data : List ℕ → Socket os → Socket os
  unfolding is_zero
  send_data d s =
      if is_zero s.client_sock_fd
      then record s { buffer = s.buffer ++ d }
      else record s { world = (os.write s.client_sock_fd d s.world).1 }

  -- The buffered bytes are sent once a client is there.
  unfoldable pub flush : Socket os → Socket os
  unfolding send_data
  flush s = elim s.buffer [ [] ↦ s | b ∷ bs ↦ record (send_data (b ∷ bs) s) { buffer = [] } ]

  -- What `accept` has returned, and whether `client_thread` goes on to its loop.
  unfoldable pub take_client : Socket os → Fd × os.World → Bool × Socket os
  unfolding flush
  take_client s (minus_one, world) = (false, record s { client_sock_fd = minus_one; world = world })
  take_client s (fd n, world) = (true, flush (record s { client_sock_fd = fd n; world = world }))

  -- `client_thread` up to its loop, with no other thread in between.
  unfoldable pub accept_client : Socket os → Bool × Socket os
  unfolding take_client
  accept_client s = take_client s (os.accept s.socket_fd s.world)

  -- The call of the callback after a `read`, and whether the loop of `client_thread` goes on.
  unfoldable pub after_read : ReadStatus → Socket os → Option Call × Bool
  after_read failed s = (none, true)
  after_read (bytes []) s = (none, false)
  after_read (bytes (b ∷ bs)) s =
      (some (record { callback = s.callback; arg = s.arg; bytes = b ∷ bs }), true)

  -- One round of the loop of `client_thread`.
  unfoldable pub read_client : Socket os → (Option Call × Bool) × Socket os
  unfolding after_read
  read_client s =
      let (status, world) = os.read s.client_sock_fd s.max_read s.world in
      (after_read status s, record s { world = world })

  -- The end of `client_thread`.
  unfoldable pub disconnect : Socket os → Socket os
  disconnect s = record s { client_sock_fd = fd 0; world = os.close s.client_sock_fd s.world }

  -- `operator=` of what is moved from `other` to the object: both as they are after it. The
  -- system is not called. Assigning to a thread object that has a thread is a fault.
  unfoldable pub move_assign : Socket os → Socket os → Option (Socket os × Socket os)
  move_assign object other =
      if object.joinable
      then none
      else some (
        record object {
          socket_fd = other.socket_fd;
          client_sock_fd = other.client_sock_fd;
          socket_path = other.socket_path;
          running = other.running;
          arg = other.arg;
          callback = other.callback;
          joinable = other.joinable;
        },
        record other {
          socket_fd = fd 0;
          client_sock_fd = fd 0;
          socket_path = [];
          running = false;
          arg = none;
          callback = none;
          joinable = false;
        },
      )

  -- The constructor that moves.
  unfoldable pub move : Socket os → Option (Socket os × Socket os)
  unfolding move_assign
  move other = move_assign (member_defaults other.world) other
