-- ===== src/Tests/Threads.antt =====
-- The theorems on `send` beside the other threads, at concrete inputs.
use hydro_lo_ra_shield.Base.{
  ℕ, ◌≡◌, refl, true, List, [], ◌∷◌, ◌++◌, some, arith, replicate, load_bytes, store_bytes,
}
use hydro_lo_ra_shield.Packet.{Packet, msg}
use hydro_lo_ra_shield.Packet.Checksum.{compute_checksum}
use hydro_lo_ra_shield.Packet.Wire.{encode}
use hydro_lo_ra_shield.Endian.{load_words, u32_to_bytes}
use hydro_lo_ra_shield.Entries.{MessageEntry, slot}
use hydro_lo_ra_shield.Driver.{
  read_register, write_register, set_mode, lora_enable_interrupt_tx_done,
  lora_clear_interrupt_tx_done,
}
use hydro_lo_ra_shield.Driver.Transfer.{
  lora_send_packet, lora_send_packet_base, load_packet, lora_is_transmitting, write_fifo,
}
use hydro_lo_ra_shield.Lora.{Device, transmitting, set_transmit_mode}
use hydro_lo_ra_shield.Lora.Radio
use hydro_lo_ra_shield.Handler.{Handler, aes_key, init, set_msg_callback}
use hydro_lo_ra_shield.Handler.Send.Fragments.{IsStale}
use hydro_lo_ra_shield.Handler.Send.Steps.{
  Outgoing, Stage, begin_send, greeting, trying, waiting, resting,
}
use hydro_lo_ra_shield.Interface.{on_data}
use hydro_lo_ra_shield.Main.System.{
  System, Step, begin_request, sending, requested, sent_on, Reach, here, next, started_up,
  IsMessage,
}
use hydro_lo_ra_shield.Main.System.Vectors.{QuietReach, quiet, quiet_then}
use hydro_lo_ra_shield.Main.System.Carried.{Announces}
use hydro_lo_ra_shield.Main.System.Announced.{encrypted_as_announced}
use hydro_lo_ra_shield.Main.System.Progress.{started_up-sending}
use hydro_lo_ra_shield.Main.{start_up}
use hydro_lo_ra_shield.Exchange.Continued.{IsOutgoing, IsContinued}
use hydro_lo_ra_shield.Tests.Toys.{toy_aes, toy_aes_laws}
use hydro_lo_ra_shield.Tests.Clients.{toy_os}
use hydro_lo_ra_shield.Tests.Systems.{frame_spi, zeros, listening, new_system, zeros-IsMemory}

-- "Hi".
abbrev pub hi : List ℕ
hi = 72 ∷ 105 ∷ []

pub hi-IsMessage : IsMessage hi
hi-IsMessage = (omega arith, omega arith, (omega arith, (omega arith, tt)))

-- Memory that holds zeros.
abbrev pub cleared : ℕ → List ℕ
cleared i = zeros 119

pub cleared-IsStale : IsStale cleared
cleared-IsStale i = zeros-IsMemory 119

-- The key that `send` makes of draws of 0 at the time 7.
abbrev pub hi_entry : MessageEntry
hi_entry = record { id = 0; expiration = 10007 }

-- The handler in the handshake.
abbrev shaking : Handler toy_aes
shaking = record new_system.handler { aes_ctx = (u32_to_bytes aes_key, zeros 16) }

-- The padded message, under the cipher of the test.
abbrev hi_packet : Packet
hi_packet = record {
  type = 0;
  message_id = 0;
  fragment_id = 0;
  total_fragments = 1;
  lenght = 16;
  payload = 183 ∷ 150 ∷ replicate 14 241 ++ replicate 103 0;
  checksum = 132;
}

abbrev told : Handler toy_aes
told = record shaking { messages = (hi_entry, hi_packet ∷ []) ∷ [] }

-- The message as `send` has it, and the frame of its handshake.
abbrev pub hi_out : Outgoing
hi_out = record { entry = hi_entry; message = hi; size = 2; type = msg }

pub hi_out-IsOutgoing : IsOutgoing hi_out
hi_out-IsOutgoing = record {
  whole = refl;
  some_bytes = omega arith;
  carried = omega arith;
  bytes = (omega arith, (omega arith, tt));
  id_fits = omega arith;
}

abbrev pub hi_frame : List ℕ
hi_frame = 165 ∷ 90 ∷ 1 ∷ 0 ∷ 0 ∷ 1 ∷ 16 ∷ zeros 16 ++ 0 ∷ 255 ∷ []

-- The system while the handshake is being sent.
abbrev while_shaking : Device frame_spi → Stage → System toy_aes frame_spi toy_os
while_shaking d stage = record new_system {
  handler = record new_system.handler { aes_ctx = (u32_to_bytes aes_key, zeros 16) };
  lora = d;
  sender = stage;
}

abbrev pub on_air : Device frame_spi
on_air = record listening { mode = transmitting }

hi_begun :
    (h : Handler toy_aes)
    → begin_request hi (λ i. 0) 7 (zeros 119) 0 h
      ≡ some (
        record h { iv = zeros 16; aes_ctx = (u32_to_bytes aes_key, zeros 16) },
        trying hi_frame (greeting hi_out (zeros 16)),
      )
unfolding begin_request begin_send on_data load_bytes load_words store_bytes encode u32_to_bytes
    compute_checksum
hi_begun h = refl

hi_tried :
    (h : Handler toy_aes)
    → sending zeros cleared 0 (h, listening, trying hi_frame (greeting hi_out (zeros 16)))
      ≡ some (h, on_air, waiting hi_frame true (greeting hi_out (zeros 16)))
unfolding sending Radio.radio Radio.try_send Radio.send lora_send_packet lora_send_packet_base
    read_register set_transmit_mode lora_enable_interrupt_tx_done write_register load_packet
    lora_is_transmitting write_fifo lora_clear_interrupt_tx_done set_mode load_bytes
hi_tried h = refl

hi_waited :
    (h : Handler toy_aes)
    → sending zeros cleared 0 (h, on_air, waiting hi_frame true (greeting hi_out (zeros 16)))
      ≡ some (h, on_air, resting (greeting hi_out (zeros 16)))
unfolding sending Radio.radio Radio.wait
hi_waited h = refl

sent_system :
    QuietReach zeros new_system
      (while_shaking on_air (waiting hi_frame true (greeting hi_out (zeros 16))))
sent_system =
    let job = greeting hi_out (zeros 16) in
    let tried = while_shaking listening (trying hi_frame job) in
    quiet_then tried (while_shaking on_air (waiting hi_frame true job))
      (quiet_then new_system tried quiet
        (requested hi (λ i. 0) 7 (zeros 119) 0 new_system tried.handler tried.sender hi-IsMessage
          (zeros-IsMemory 119) refl (hi_begun new_system.handler))
        tt)
      (sent_on cleared 0 tried tried.handler on_air (waiting hi_frame true job) cleared-IsStale
        (hi_tried tried.handler))
      tt

abbrev shaken_system :
    QuietReach zeros
      (while_shaking on_air (waiting hi_frame true (greeting hi_out (zeros 16))))
      (while_shaking on_air (resting (greeting hi_out (zeros 16))))
shaken_system =
    let job = greeting hi_out (zeros 16) in
    let slept = while_shaking on_air (waiting hi_frame true job) in
    quiet_then slept (while_shaking on_air (resting job)) quiet
      (sent_on cleared 0 slept slept.handler on_air (resting job) cleared-IsStale
        (hi_waited slept.handler))
      tt

no_hi : slot hi_entry [] ≡ []
unfolding slot
no_hi = refl

encrypted_as_announced_example :
    (vector : List ℕ) × Announces hi_frame hi_out vector
    × (v : System toy_aes frame_spi toy_os) × Step zeros
        (while_shaking on_air (resting (greeting hi_out (zeros 16))))
        v
    × IsContinued toy_aes hi_out 0 (u32_to_bytes aes_key, vector) v.sender
encrypted_as_announced_example =
    encrypted_as_announced zeros toy_aes_laws new_system
      (while_shaking on_air (waiting hi_frame true (greeting hi_out (zeros 16))))
      (while_shaking on_air (resting (greeting hi_out (zeros 16)))) hi_frame hi_out (zeros 16)
      (greeting hi_out (zeros 16)) cleared 0 refl sent_system refl shaken_system (tt, tt) refl
      hi_out-IsOutgoing cleared-IsStale no_hi

-- A message of a client has just come, after the start.
abbrev begun_system : System toy_aes frame_spi toy_os
begun_system = record new_system {
  handler = record new_system.handler {
    aes_ctx = (u32_to_bytes aes_key, zeros 16);
    msg_callback = true;
  };
  sender = trying hi_frame (greeting hi_out (zeros 16));
}

begun-Reach : Reach zeros (started_up new_system) begun_system
unfolding started_up start_up init set_msg_callback
begun-Reach =
    next (started_up new_system) (started_up new_system) begun_system (here (started_up new_system))
      (requested hi (λ i. 0) 7 (zeros 119) 0 (started_up new_system) begun_system.handler
        begun_system.sender hi-IsMessage (zeros-IsMemory 119) refl
        (hi_begun (started_up new_system).handler))

started_up-sending_example :
    (u : System toy_aes frame_spi toy_os) × Step zeros begun_system u
    × (sending zeros cleared 0 (begun_system.handler, listening, begun_system.sender)
        ≡ some (u.handler, u.lora, u.sender))
started_up-sending_example =
    started_up-sending zeros toy_aes_laws new_system begun_system cleared 0 refl refl begun-Reach
      (λ e. cc) cleared-IsStale
