-- ===== src/Packet/Wire.antt =====
-- lib/packethandler.cpp: the wire format, which `send_pkt` writes and `receive` reads.
pub mod Laws
use hydro_lo_ra_shield.Base.{
  ℕ, ◌+◌, List, [], ◌∷◌, ◌++◌, Option, some, Bool, true, false, ◌==◌, ◌&&◌, get_elem?, load_bytes,
  store_bytes, u8,
}
use hydro_lo_ra_shield.Base.Fault.{◌>>=◌}
use hydro_lo_ra_shield.Packet.{Packet}

-- The bytes of `buffer` in `send_pkt`. The byte before the checksum is never written: `gap` is
-- what the stack holds there.
unfoldable pub encode : ℕ → Packet → Option (List ℕ)
encode gap p = do
  used ← load_bytes 0 p.lenght p.payload
  some (
      (0xa5 ∷ 0x5a ∷ p.type ∷ p.message_id ∷ p.fragment_id ∷ p.total_fragments ∷ p.lenght ∷ used)
      ++ gap ∷ u8 p.checksum ∷ [])

-- What the buffer of `receive` is read as: no frame of ours, or a packet and its checksum.
pub data Frame : Type 0 where
  foreign : Frame
  frame : Packet → ℕ → Frame

-- The header test of `receive`.
unfoldable pub has_header : List ℕ → Bool
has_header (a ∷ b ∷ rest) = a == 0xa5 && b == 0x5a
has_header _ = false

-- `receive` from its header test to `received_checksum`. `fresh` is what `malloc` returns for the
-- payload and `junk` for the checksum; `none` is an access outside the buffer or the payload.
unfoldable pub decode : List ℕ → ℕ → List ℕ → Option Frame
unfolding has_header
decode fresh junk buffer = elim (has_header buffer) [
  | false ↦ some foreign
  | true ↦ do
    type ← get_elem? buffer 2
    message_id ← get_elem? buffer 3
    fragment_id ← get_elem? buffer 4
    total_fragments ← get_elem? buffer 5
    lenght ← get_elem? buffer 6
    used ← load_bytes 7 lenght buffer
    payload ← store_bytes used fresh
    received_checksum ← get_elem? buffer (lenght + 8)
    some (
        frame
          (record {
            type = type;
            message_id = message_id;
            fragment_id = fragment_id;
            total_fragments = total_fragments;
            lenght = lenght;
            payload = payload;
            checksum = junk;
          })
          received_checksum)
]
