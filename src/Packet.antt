-- ===== src/Packet.antt =====
-- lib/packet.h: the packet, its types and its size; the children are the checksum and the wire
-- format of lib/packethandler.cpp.
pub mod Checksum
pub mod Wire
use hydro_lo_ra_shield.Base.{
  ℕ, ◌≡◌, ◌≤◌, ◌<◌, List, Option, none, some, ◌==◌, if◌then◌else◌, take, length, IsBytes, IsByte,
}

-- PACKET_MAX_SIZE.
abbrev pub packet_max_size : ℕ
packet_max_size = 119

pub data PacketTypes : Type 0 where
  msg encryp ack nack flags dict : PacketTypes

-- The value that `static_cast<uint8_t>(type)` stores.
abbrev pub type_code : PacketTypes → ℕ
type_code msg = 0
type_code encryp = 1
type_code ack = 2
type_code nack = 3
type_code flags = 4
type_code dict = 5

-- The cast back of a byte; `none` is a value outside the enumeration.
abbrev pub type_of : ℕ → Option PacketTypes
type_of c =
    if c == 0
    then some msg
    else if c == 1
    then some encryp
    else if c == 2
    then some ack
    else if c == 3
    then some nack
    else if c == 4
    then some flags
    else if c == 5
    then some dict
    else none

-- `packet_t`; its field `data` is `payload` here, and the constant `header` is in `Wire`.
pub record Packet : Type 0 where
  pub type : ℕ
  pub message_id : ℕ
  pub fragment_id : ℕ
  pub total_fragments : ℕ
  pub lenght : ℕ
  pub payload : List ℕ
  pub checksum : ℕ

-- The part of the payload that the packet uses.
abbrev pub content : Packet → List ℕ
content p = take p.lenght p.payload

-- What the C types and the array's size give: bytes in every field and 119 bytes of payload.
pub record IsPacket (p : Packet) : Type 0 where
  pub type_fits : p.type < 256
  pub message_fits : p.message_id < 256
  pub fragment_fits : p.fragment_id < 256
  pub total_fits : p.total_fragments < 256
  pub lenght_fits : p.lenght ≤ packet_max_size
  pub payload_size : length p.payload ≡ packet_max_size
  pub payload_bytes : IsBytes p.payload
