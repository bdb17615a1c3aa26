-- ===== src/Entries.antt =====
-- lib/packethandler.h: `message_entry_t`, its hash and its equality, and the two maps
-- `std::unordered_map<message_entry_t, std::vector<packet_t*>>` as association lists.
pub mod Laws
use hydro_lo_ra_shield.Base.{
  ℕ, ◌*◌, ◌%◌, ◌^◌, Bool, ◌&&◌, List, [], ◌∷◌, ◌++◌, ◌==◌, if◌then◌else◌, bit_xor, u32, u64,
}
use hydro_lo_ra_shield.Packet.{Packet}

pub record MessageEntry : Type 0 where
  pub id : ℕ
  pub expiration : ℕ

-- `hash<message_entry_t>`: the id with the doubled low 32 bits of the expiration.
unfoldable pub hash : MessageEntry → ℕ
hash k = bit_xor k.id (u64 (u32 k.expiration * 2))

-- A lookup compares the stored hashes first, then by `operator==`, which reads the ids.
unfoldable pub same_entry : MessageEntry → MessageEntry → Bool
unfolding hash
same_entry a b = hash a == hash b && a.id == b.id

abbrev pub Messages : Type 0
Messages = List (MessageEntry × List Packet)

-- `messages[entry].push_back(pkt)`.
unfoldable pub push_back : MessageEntry → Packet → Messages → Messages
push_back entry pkt [] = (entry, pkt ∷ []) ∷ []
push_back entry pkt ((key, pkts) ∷ rest) =
    if same_entry key entry
    then (key, pkts ++ pkt ∷ []) ∷ rest
    else (key, pkts) ∷ push_back entry pkt rest

-- `messages[entry]` as it is read: the packets there, and the map with the entry made if it was
-- missing.
unfoldable pub slot : MessageEntry → Messages → List Packet
slot entry [] = []
slot entry ((key, pkts) ∷ rest) = if same_entry key entry then pkts else slot entry rest

unfoldable pub touch : MessageEntry → Messages → Messages
touch entry [] = (entry, []) ∷ []
touch entry ((key, pkts) ∷ rest) =
    if same_entry key entry then (key, pkts) ∷ rest else (key, pkts) ∷ touch entry rest

unfoldable pub push_all : MessageEntry → List Packet → Messages → Messages
push_all entry [] m = m
push_all entry (pkt ∷ pkts) m = push_all entry pkts (push_back entry pkt m)
