-- ===== src/Lib.antt =====
-- Verification of the LoRa backend of the hydro system: a Raspberry Pi program that carries
-- messages between a client on a local socket and an SX1276 LoRa radio, in encrypted packets.
--
-- The program and the files that model it, with paths from the repository's root:
-- - lib/packet.h and the wire format of lib/packethandler.cpp: Packet (`Packet` is `packet_t`,
--   `PacketTypes` its types), Packet/Checksum (`compute_checksum`, `validate_checksum`), Packet/Wire
--   (`encode` is the buffer that `send_pkt` writes, `decode` what `receive` reads).
-- - lib/packethandler.cpp, lib/packethandler.h: Handler (the state `Handler` of the class
--   `PacketHandler`; `init`, `set_msg_callback`, `clean`), Handler/Send (`send_pkt`,
--   `encryption_handshake`, `send`; in steps in Handler/Send/Steps), Handler/Receive (`receive`),
--   Handler/Poll (`poll`, with the cases of its switch as `handle_msg` and `handle_encryp`),
--   Handler/Sort (its `std::sort`), Entries (the two maps, with the hash and the equality of their
--   keys), Padding (the padding that `send` adds and `poll` checks), Endian (`swap_endianness`,
--   `u32_to_bytes`, the casts).
-- - Exchange puts two handlers together: what `send` puts on the air, `receive` and `poll` take in.
-- - lib/lora_sx1276.cpp, lib/lora_sx1276.h: Driver (registers and modes), Driver/Config (the
--   settings), Driver/Transfer (sending and receiving), Driver/Init (`lora_init`). Driver/Files runs
--   the driver over a file of the configuration registers.
-- - lib/lora.cpp, lib/lora.h: Lora (the class `LoRa`, as `Device`), Lora/Radio (`send`, `receive`,
--   the interrupt handler), Lora/Presets (`set_long_range`, `set_short_range`).
-- - src/unix-socket.cpp, src/unix-socket.hpp: UnixSocket (the class, with its constructors and its
--   move), UnixSocket/Session (the thread `socket_thread` with `client_thread`, in steps between
--   which other threads call `send_data` and `stop`; `logged` is a system with a log of the bytes that
--   `write` gets for a client).
-- - src/InterfaceConnection.cpp: Interface (`on_data`), Interface/Connection (the rest).
-- - main.cpp: Main (the start, the callback, a round of the housekeeping thread) and Main/System
--   (interrupts, rounds, messages of clients and the steps of `send` as the steps of one system).
-- - Base holds the shared names and lemmas; Tests the concrete parameters, runs and instances.
--
-- How it is modelled. State is passed on explicitly. A fault (an access outside an array) is the
-- outcome `none` of an Option. Bytes and words are natural numbers, with each wrap-around written
-- out (`u8`, `u32`, `u64`). Memory that the source reads before it writes it is an argument: the
-- gap in each frame, the stale payload of a new packet, the stack's buffer, the length that
-- `poll` reads from a freed packet (`dangling`, for each entry). So are the time and what
-- `rand()` returns. The callback is a list of deliveries. The maps are association lists;
-- std::unordered_map leaves the order open. The loop that repeats `lora->send` runs on fuel, and
-- enough of it is the patience of the radio, the number of attempts of which one is accepted
-- (`LinkLaws`); `while (remaining)` runs on the bytes that are left, since each round takes at
-- least one. The waits with a timeout run on the milliseconds left.
--
-- Parameters, with an instance of each in Tests: `Aes` (lib/aes.c is a copy of tiny-AES-c), `Spi`
-- (the SPI library with the chip behind it: `RegisterLaws` says that a configuration register holds
-- what was written last), `Os` (the calls of the operating system). `Link` is what the packet
-- handler uses of the class `LoRa`; `radio` in Lora/Radio gives it, and Lora/Air its laws, over
-- `TransmitLaws` (Driver/Transfer/Air), which say how the chip transmits what is in its FIFO, and
-- when its mode changes. A frame counts from when its transmission begins.
--
-- Threads. In Main/System a step of `send` ends where its thread gives up the radio's mutex or
-- sleeps, so that other threads come between any two of them, also between the handshake and the
-- encryption. An interrupt has two steps, since its `receive` waits for the mutex; a round of the
-- housekeeping thread is one step, and does not come while it would free packets in transmission,
-- 10000 s after their message.
--
-- Not modelled: printing, the empty class in src/LoraHandling.cpp, the signal handler, and the
-- order of memory and register accesses inside a step: that `poll` and the interrupt use `received`
-- without a lock, that the interrupt sets the receive mode without the radio's mutex, and that a
-- call of `send_data` is not one step, is so left out.
pub mod Aes
pub mod Base
pub mod Driver
pub mod Endian
pub mod Entries
pub mod Exchange
pub mod Handler
pub mod Interface
pub mod Link
pub mod Lora
pub mod Main
pub mod Packet
pub mod Padding
pub mod Spi
pub mod Tests
pub mod UnixSocket
