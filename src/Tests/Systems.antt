-- ===== src/Tests/Systems.antt =====
-- The theorems on the whole system, at concrete inputs.
use hydro_lo_ra_shield.Base.{
  ℕ, ◌≡◌, refl, true, false, List, [], ◌∷◌, ◌++◌, some, arith, replicate, length-replicate, Bool,
  ◌&&◌, All-replicate, IsByte, IsBytes, if◌then◌else◌, ◌==◌, ltb, u8, load_bytes, store_bytes,
}
use hydro_lo_ra_shield.Packet.{Packet}
use hydro_lo_ra_shield.Packet.Checksum.{validate_checksum}
use hydro_lo_ra_shield.Packet.Wire.Laws.{bytes_of}
use hydro_lo_ra_shield.Spi.{Spi}
use hydro_lo_ra_shield.Driver.{read_register, write_register}
use hydro_lo_ra_shield.Driver.Transfer.{lora_is_packet_available, lora_receive_packet_blocking}
use hydro_lo_ra_shield.Driver.Transfer.Bytes.{GivesBytes}
use hydro_lo_ra_shield.Lora.{Device, receiving}
use hydro_lo_ra_shield.Lora.Bytes.{radio-HandsBytes}
use hydro_lo_ra_shield.Handler.{Handler, init, set_msg_callback}
use hydro_lo_ra_shield.Handler.Receive
use hydro_lo_ra_shield.Lora.Radio
use hydro_lo_ra_shield.Entries.{push_back}
use hydro_lo_ra_shield.Packet.Wire.{decode}
use hydro_lo_ra_shield.Handler.Receive.{incoming}
use hydro_lo_ra_shield.Handler.Invariant.{IsHandler}
use hydro_lo_ra_shield.Handler.Send.Steps.{idle}
use hydro_lo_ra_shield.UnixSocket.{fd}
use hydro_lo_ra_shield.Main.{start_up, house_keeping}
use hydro_lo_ra_shield.Main.System.{System, Step, interrupt, Reach, started_up, IsMemory}
use hydro_lo_ra_shield.Main.System.Requests.{interrupt-Reach}
use hydro_lo_ra_shield.Main.System.Invariant.{started_up-IsHandler, started_up-house_keeping}
use hydro_lo_ra_shield.Tests.Toys.{toy_aes, toy_aes_laws}
use hydro_lo_ra_shield.Tests.Clients.{toy_os, waiting}

-- A frame of a whole message of 16 bytes.
abbrev pub small_packet : Packet
small_packet = record {
  type = 0;
  message_id = 9;
  fragment_id = 0;
  total_fragments = 1;
  lenght = 16;
  payload = replicate 119 1;
  checksum = 239;
}

abbrev pub small_frame : List ℕ
small_frame = bytes_of 0 small_packet

-- A chip that has received the frame: its interrupt flags and the length, and the frame behind
-- them.
abbrev pub reg_of : ℕ → ℕ
reg_of a = if a == 0x12 then 0x50 else if a == 0x13 then 25 else 0

abbrev pub frame_xfer : List ℕ → ℕ → List ℕ × ℕ
frame_xfer (a ∷ v ∷ []) n = (0 ∷ u8 (reg_of a) ∷ [], n)
frame_xfer tx n = (0 ∷ small_frame, n)

abbrev pub frame_spi : Spi
frame_spi = record { Chip = ℕ; xfer = frame_xfer; sleep = λ ms n. n }

abbrev all_bytes : List ℕ → Bool
all_bytes [] = true
all_bytes (b ∷ bs) = ltb b 256 && all_bytes bs

all_bytes-IsBytes : (bs : List ℕ) → all_bytes bs ≡ true → IsBytes bs
all_bytes-IsBytes [] e = tt
all_bytes-IsBytes (b ∷ bs) e = (ground arith, all_bytes-IsBytes bs (ground arith))

frame-IsBytes : IsBytes (0 ∷ small_frame)
frame-IsBytes = all_bytes-IsBytes (0 ∷ small_frame) refl

frame_spi-GivesBytes : GivesBytes frame_spi
frame_spi-GivesBytes [] n = frame-IsBytes
frame_spi-GivesBytes (a ∷ []) n = frame-IsBytes
frame_spi-GivesBytes (a ∷ v ∷ []) n = (omega arith, (omega arith, tt))
frame_spi-GivesBytes (a ∷ v ∷ w ∷ tx) n = frame-IsBytes

abbrev pub zeros : ℕ → List ℕ
zeros n = replicate n 0

pub zeros-IsMemory : (n : ℕ) → IsMemory n (zeros n)
zeros-IsMemory n = (length-replicate n 0, All-replicate IsByte n 0 (omega arith))

abbrev pub listening : Device frame_spi
listening = record {
  mode = receiving;
  lora = record {
    spi_timeout = 1000;
    frequency = 0;
    pa_mode = 1;
    tx_base_addr = 128;
    rx_base_addr = 0;
  };
  chip = 0;
}

abbrev pub new_system : System toy_aes frame_spi toy_os
new_system = record {
  handler = record {
    iv = replicate 16 0;
    aes_ctx = ([], []);
    msg_callback = false;
    messages = [];
    received = [];
  };
  lora = listening;
  server = waiting (fd 7);
  sender = idle;
  in_interrupt = false;
}

-- The handler after the frame has come in.
abbrev informed : Handler toy_aes
informed = record (start_up new_system.handler) {
  received =
      (
        incoming 9,
        record small_packet { payload = replicate 16 1 ++ replicate 103 0; checksum = 0 } ∷ [],
      )
      ∷ [];
}

frame_taken :
    interrupt zeros (zeros 128) (zeros 119) 0 (started_up new_system).handler listening
    ≡ some (informed, listening)
unfolding interrupt started_up Receive.receive Radio.receive lora_receive_packet_blocking
    read_register store_bytes load_bytes decode validate_checksum push_back set_msg_callback init
    write_register lora_is_packet_available
frame_taken = refl

-- The system has received the frame.
abbrev informed_system : System toy_aes frame_spi toy_os
informed_system = record new_system { handler = informed }

informed-Reach : Reach zeros (started_up new_system) informed_system
unfolding started_up
informed-Reach =
    interrupt-Reach zeros (zeros 128) (zeros 119) 0 (started_up new_system) informed listening
      (zeros-IsMemory 128) (zeros-IsMemory 119) refl frame_taken

started_up-IsHandler_example : IsHandler informed
started_up-IsHandler_example =
    started_up-IsHandler zeros (radio-HandsBytes frame_spi zeros frame_spi-GivesBytes) new_system
      informed_system (refl, refl) informed-Reach

started_up-house_keeping_example :
    (u : System toy_aes frame_spi toy_os) × Step zeros informed_system u
    × (house_keeping (λ i. 16) 100 informed informed_system.server ≡ some (u.handler, u.server))
started_up-house_keeping_example =
    started_up-house_keeping zeros (radio-HandsBytes frame_spi zeros frame_spi-GivesBytes)
      toy_aes_laws (λ i. 16) 100 new_system informed_system (refl, refl) informed-Reach
      (λ i. omega arith) tt ((λ e. omega arith), tt)
