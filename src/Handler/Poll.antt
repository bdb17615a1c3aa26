-- ===== src/Handler/Poll.antt =====
-- lib/packethandler.cpp: `poll`. `dangling` is what `front->lenght` reads after the packet that
-- `front` names has been freed, for each entry that the loop comes to. The entries are visited in the
-- order of the list.
pub mod Laws
pub mod Message
pub mod Vector
pub mod Total
pub mod Order
use hydro_lo_ra_shield.Base.{
  ℕ, ◌+◌, Bool, true, false, List, [], ◌∷◌, ◌++◌, Option, none, some, ◌==◌, if◌then◌else◌, length,
  take, drop, load_bytes, store_bytes, u32,
}
use hydro_lo_ra_shield.Base.Fault.{◌>>=◌}
use hydro_lo_ra_shield.Packet.{Packet, PacketTypes, msg, encryp, ack, nack, flags, dict, type_of}
use hydro_lo_ra_shield.Endian.{load_words, store_words, swap_endianness}
use hydro_lo_ra_shield.Padding.{Delivery, strip}
use hydro_lo_ra_shield.Entries.{MessageEntry, Messages}
use hydro_lo_ra_shield.Aes.{Aes}
use hydro_lo_ra_shield.Handler.{Handler}
use hydro_lo_ra_shield.Handler.Sort.{sort}

-- `fragments[0]->total_fragments == fragments.size()`.
unfoldable pub is_complete : List Packet → Bool
is_complete [] = false
is_complete (front ∷ rest) = front.total_fragments == length (front ∷ rest)

unfoldable pub total_length : ℕ → List Packet → ℕ
total_length acc [] = acc
total_length acc (p ∷ ps) = total_length (u32 (acc + p.lenght)) ps

-- The copies of `memcpy(reassembled + offset, pkt->data, pkt->lenght)`, one after the other.
unfoldable pub reassemble : List Packet → Option (List ℕ)
reassemble [] = some []
reassemble (p ∷ ps) = do
  used ← load_bytes 0 p.lenght p.payload
  rest ← reassemble ps
  some (used ++ rest)

-- The type of the first fragment.
unfoldable pub front_type : List Packet → Option PacketTypes
front_type [] = none
front_type (front ∷ rest) = type_of front.type

module _ {aes : Aes} where
  -- `case PacketTypes::MSG`.
  unfoldable pub handle_msg : ℕ → List ℕ → Handler aes → Option (Handler aes × List Delivery)
  handle_msg total reassembled h = elim h.msg_callback [
    | false ↦ some (h, [])
    | true ↦ do
      let (plain, ctx) = aes.ctr_xcrypt h.aes_ctx reassembled
      stripped ← strip total plain
      some (record h { aes_ctx = ctx }, elim stripped [ none ↦ [] | some d ↦ d ∷ [] ])
  ]

  -- `case PacketTypes::ENCRYP`.
  unfoldable pub handle_encryp : ℕ → List ℕ → Handler aes → Option (Handler aes × List Delivery)
  handle_encryp dangling reassembled h = do
    vector ← load_bytes 0 16 reassembled
    let iv_vector = store_words (swap_endianness (load_words vector))
    copied ← load_bytes 0 dangling (iv_vector ++ drop 16 reassembled)
    iv ← store_bytes copied h.iv
    some (record h { iv = iv; aes_ctx = aes.ctx_set_iv h.aes_ctx iv_vector }, [])

  unfoldable pub dispatch :
      Option PacketTypes → ℕ → ℕ → List ℕ → Handler aes → Option (Handler aes × List Delivery)
  unfolding handle_msg handle_encryp
  dispatch (some msg) dangling total reassembled h = handle_msg total reassembled h
  dispatch (some encryp) dangling total reassembled h = handle_encryp dangling reassembled h
  dispatch (some ack) dangling total reassembled h = some (h, [])
  dispatch (some nack) dangling total reassembled h = some (h, [])
  dispatch (some flags) dangling total reassembled h = some (h, [])
  dispatch (some dict) dangling total reassembled h = some (h, [])
  dispatch none dangling total reassembled h = some (h, [])

  -- A message whose fragments are all there.
  unfoldable pub process : ℕ → List Packet → Handler aes → Option (Handler aes × List Delivery)
  unfolding dispatch front_type reassemble total_length
  process dangling fragments h = do
    let sorted = sort fragments
    reassembled ← reassemble sorted
    dispatch (front_type sorted) dangling (total_length 0 sorted) reassembled h

  -- The loop over `received`: the handler, the entries that stay, and what is delivered.
  unfoldable pub poll_entries :
      (ℕ → ℕ) → Messages → Handler aes → Option (Handler aes × Messages × List Delivery)
  poll_entries dangling [] h = some (h, [], [])
  poll_entries dangling ((entry, fragments) ∷ rest) h = elim (is_complete fragments) [
    | true ↦ do
      (handled, out) ← process (dangling 0) fragments h
      (last, kept, outs) ← poll_entries (λ i. dangling (i + 1)) rest handled
      some (last, kept, out ++ outs)
    | false ↦ do
      (last, kept, outs) ← poll_entries (λ i. dangling (i + 1)) rest h
      some (last, (entry, fragments) ∷ kept, outs)
  ]

  unfoldable pub poll : (ℕ → ℕ) → Handler aes → Option (Handler aes × List Delivery)
  unfolding poll_entries is_complete process
  poll dangling h = do
    (last, kept, out) ← poll_entries dangling h.received h
    some (record last { received = kept }, out)
