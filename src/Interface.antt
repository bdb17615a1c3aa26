-- ===== src/Interface.antt =====
-- src/InterfaceConnection.cpp: what `on_data` makes of the bytes of a client, as the call of
-- `packetHandler.send` that it ends in.
pub mod Laws
pub mod Connection
use hydro_lo_ra_shield.Base.{
  ℕ, zero, suc, ◌+◌, ◌-◌, ◌^◌, Bool, true, false, ◌&&◌, ◌||◌, List, [], ◌∷◌, Option, none, some,
  ◌==◌, leb, ltb, if◌then◌else◌, length, take, drop, get_or, u8,
}
use hydro_lo_ra_shield.Base.Fault.{◌>>=◌}
use hydro_lo_ra_shield.Packet.{PacketTypes, msg, flags, dict}

-- The arguments of `packetHandler.send`: the bytes, their number and the type.
pub record Request : Type 0 where
  pub bytes : List ℕ
  pub size : ℕ
  pub type : PacketTypes

unfoldable pub starts_with : List ℕ → List ℕ → Bool
starts_with [] message = true
starts_with (p ∷ ps) [] = false
starts_with (p ∷ ps) (b ∷ bs) = p == b && starts_with ps bs

-- `message.find(pattern) != std::string::npos`.
unfoldable pub contains : List ℕ → List ℕ → Bool
unfolding starts_with
contains pattern [] = starts_with pattern []
contains pattern (b ∷ bs) = starts_with pattern (b ∷ bs) || contains pattern bs

-- `message[i]`: at the length of the string it is 0, and past that `none`.
unfoldable pub string_at : List ℕ → ℕ → Option ℕ
string_at message i = if leb i (length message) then some (get_or message i 0) else none

-- `message.substr(pos, n)`, which throws past the end.
unfoldable pub substr : List ℕ → ℕ → ℕ → Option (List ℕ)
substr message pos n = if leb pos (length message) then some (take n (drop pos message)) else none

-- `atoi` of a string of at most one character.
unfoldable pub atoi : List ℕ → ℕ
atoi [] = 0
atoi (c ∷ cs) = if leb 48 c && leb c 57 then c - 48 else 0

-- "PRESET:" and "FLAG:".
abbrev pub preset_word : List ℕ
preset_word = 80 ∷ 82 ∷ 69 ∷ 83 ∷ 69 ∷ 84 ∷ 58 ∷ []

abbrev pub flag_word : List ℕ
flag_word = 70 ∷ 76 ∷ 65 ∷ 71 ∷ 58 ∷ []

unfoldable pub on_data : List ℕ → Option Request
unfolding contains string_at substr atoi
on_data message =
    if contains preset_word message
    then (do
      digit ← string_at message 7
      some (record { bytes = u8 (digit + 2 ^ 32 - 48) ∷ []; size = 1; type = dict }))
    else if contains flag_word message
    then (do
      digit ← substr message 5 1
      some (record { bytes = u8 (atoi digit) ∷ []; size = 1; type = flags }))
    else some (record { bytes = message; size = length message; type = msg })
