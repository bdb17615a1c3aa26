-- ===== src/Tests/Packets.antt =====
-- Runs and instances for the wire format, the padding and `receive`.
use hydro_lo_ra_shield.Base.{
  drop, ℕ, ◌+◌, ◌^◌, ◌<◌, ◌≡◌, ◌↔◌, ◌⊎◌, inl, refl, sym, true, false, List, [], ◌∷◌, ◌++◌, some,
  none, arith, length, take, replicate, load_bytes, store_bytes, All-replicate, IsByte,
}
use hydro_lo_ra_shield.Packet.{Packet, IsPacket, packet_max_size}
use hydro_lo_ra_shield.Packet.Checksum.{compute_checksum}
use hydro_lo_ra_shield.Packet.Wire.{encode, decode, frame, has_header}
use hydro_lo_ra_shield.Packet.Wire.Laws.{bytes_of, stored, decode-encode}
use hydro_lo_ra_shield.Padding.{padded_size, pad, strip}
use hydro_lo_ra_shield.Padding.Lost.{AreAll}
use hydro_lo_ra_shield.Padding.RoundTrip.{strip-pad, strip-pad_lost, strip_short}
use hydro_lo_ra_shield.Handler.{Handler}
use hydro_lo_ra_shield.Handler.Receive.{accept, receive}
use hydro_lo_ra_shield.Handler.Receive.Faults.{accept-corrupt, receive_fault_iff, corrupt}
use hydro_lo_ra_shield.Link.{Reception}
use hydro_lo_ra_shield.Tests.Toys.{toy_aes, toy_link, ToyRadio}

abbrev blank : List ℕ
blank = replicate 119 0

blank-size : length blank ≡ packet_max_size
blank-size = refl

abbrev hello : Packet
hello = record {
  type = 0;
  message_id = 7;
  fragment_id = 0;
  total_fragments = 1;
  lenght = 2;
  payload = 104 ∷ 105 ∷ replicate 117 0;
  checksum = 46;
}

hello-IsPacket : IsPacket hello
hello-IsPacket = record {
  type_fits = omega arith;
  message_fits = omega arith;
  fragment_fits = omega arith;
  total_fits = omega arith;
  lenght_fits = omega arith;
  payload_size = refl;
  payload_bytes = (omega arith, (omega arith, All-replicate IsByte 117 0 (omega arith)));
}

hello_checksum : compute_checksum hello 2 ≡ 46
unfolding compute_checksum
hello_checksum = refl

hello_frame : encode 9 hello ≡ some (0xa5 ∷ 0x5a ∷ 0 ∷ 7 ∷ 0 ∷ 1 ∷ 2 ∷ 104 ∷ 105 ∷ 9 ∷ 46 ∷ [])
unfolding encode load_bytes
hello_frame = refl

decode-encode_example :
    (bytes : List ℕ) × (encode 9 hello ≡ some bytes)
    × (decode blank 0 (bytes ++ replicate 117 0) ≡ some (frame (stored blank 0 hello) 46))
decode-encode_example = decode-encode 9 hello-IsPacket (replicate 117 0) blank 0 blank-size

abbrev idle : Handler toy_aes
idle = record {
  iv = replicate 16 0;
  aes_ctx = ([], []);
  msg_callback = true;
  messages = [];
  received = [];
}

accept-corrupt_example :
    accept blank 0 (bytes_of 9 (corrupt 1 106 hello) ++ replicate 117 0) idle ≡ some idle
accept-corrupt_example =
    accept-corrupt idle 9 hello 1 106 (replicate 117 0) blank 0 hello-IsPacket (sym hello_checksum)
      blank-size (omega arith) (omega arith) (omega arith)

-- A frame that says it carries 120 bytes.
abbrev oversized : Reception
oversized = record {
  received = 128;
  error = 0;
  buffer = 0xa5 ∷ 0x5a ∷ 0 ∷ 1 ∷ 0 ∷ 1 ∷ 120 ∷ replicate 121 0;
}

abbrev radio : ToyRadio
radio = record { busy = false; sent = []; inbox = some oversized }

receive_fault_iff_example :
    (receive toy_link blank blank 0 idle radio ≡ none) ↔ (packet_max_size < 120)
unfolding has_header
receive_fault_iff_example =
    receive_fault_iff toy_link blank blank 0 idle radio radio oversized refl (omega arith) refl
      blank-size refl refl

-- The text "abc".
abbrev abc : List ℕ
abc = b'a' ∷ b'b' ∷ b'c' ∷ []

abc_padded : pad abc 3 ≡ some (abc ++ replicate 13 13)
unfolding pad load_bytes store_bytes
abc_padded = refl

strip-pad_example :
    (buffer : List ℕ) × (pad abc 3 ≡ some buffer)
    × (strip (padded_size 3) buffer ≡ some (some (record { bytes = buffer; len = 3 })))
    × (take 3 buffer ≡ abc)
strip-pad_example = strip-pad abc 3 refl (omega arith) (omega arith) (inl (omega arith))

-- Sixteen bytes that end in a newline are lost.
abbrev line : List ℕ
line = replicate 15 b'x' ++ 10 ∷ []

strip-pad_lost_example :
    (pad line 16 ≡ some line)
    × ((AreAll 10 (drop 6 line)
          × (strip (padded_size 16) line ≡ some (some (record { bytes = line; len = 6 }))))
        ⊎ ((¬ AreAll 10 (drop 6 line)) × (strip (padded_size 16) line ≡ some none)))
strip-pad_lost_example =
    strip-pad_lost line 16 refl (omega arith) (omega arith) (omega arith) (omega arith)
      (omega arith)

newline_dropped : strip 16 line ≡ some none
unfolding strip
newline_dropped = refl

strip_short_example :
    (strip 3 (1 ∷ 2 ∷ 9 ∷ []) ≡ some (some (record { bytes = 1 ∷ 2 ∷ 9 ∷ []; len = 4294967290 })))
    × (3 + 2 ^ 31 < 4294967290)
strip_short_example =
    strip_short 3 9 (1 ∷ 2 ∷ 9 ∷ []) refl (omega arith) refl (omega arith) (omega arith)
