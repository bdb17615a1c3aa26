-- ===== src/Interface/Laws.antt =====
-- `on_data` stays inside the string, and what it makes of the commands.
use hydro_lo_ra_shield.Base.{
  ℕ, ◌+◌, ◌-◌, ◌^◌, ◌≤◌, ◌<◌, ◌≡◌, refl, ap, true, false, List, [], ◌∷◌, some, arith, length,
  le→leb, u8, take, drop, get_or, Bool-cases, inl, inr, ◌⊎◌, IsBytes, Option, if◌then◌else◌,
}
use hydro_lo_ra_shield.Base.Fault.{◌>>=◌, Returns, Returns->>=, Returns-either}
use hydro_lo_ra_shield.Packet.{PacketTypes, msg, flags, dict}
use hydro_lo_ra_shield.Interface.{
  Request, starts_with, contains, string_at, substr, atoi, preset_word, flag_word, on_data,
}

starts_with-length :
    (pattern message : List ℕ)
    → starts_with pattern message ≡ true
    → length pattern ≤ length message
unfolding starts_with
starts_with-length [] message e = omega arith
starts_with-length (p ∷ ps) [] e = absurd (ground arith)
starts_with-length (p ∷ ps) (b ∷ bs) e = ground (arith, starts_with-length ps bs)

contains-length :
    (pattern message : List ℕ) → contains pattern message ≡ true → length pattern ≤ length message
unfolding contains
contains-length pattern [] e = starts_with-length pattern [] e
contains-length pattern (b ∷ bs) e =
    ground (arith, starts_with-length pattern (b ∷ bs), contains-length pattern bs)

-- What `on_data` sends: the message as it came, of type MSG, if neither command word is in it; else
-- one byte, the digit behind the word: of type DICT for "PRESET:", of type FLAGS for "FLAG:".
abbrev pub IsAsked : List ℕ → Request → Type 0
IsAsked message r =
    ((contains preset_word message ≡ false)
      × (contains flag_word message ≡ false)
      × (r ≡ record { bytes = message; size = length message; type = msg }))
    ⊎ ((b : ℕ) × (t : PacketTypes) × (r ≡ record { bytes = b ∷ []; size = 1; type = t })
        × (((contains preset_word message ≡ true)
              × (t ≡ dict)
              × (b ≡ u8 (get_or message 7 0 + 2 ^ 32 - 48)))
            ⊎ ((contains preset_word message ≡ false)
                × (contains flag_word message ≡ true)
                × (t ≡ flags)
                × (b ≡ u8 (atoi (take 1 (drop 5 message)))))))

-- `on_data` is total: whatever a client sends, the reads at 7 and at 5 stay inside the string or
-- at its end, wherever the command word stands. What it sends is the message as it came, of type
-- MSG, if neither "PRESET:" nor "FLAG:" is in it; else one byte: of type DICT, the byte at 7 less
-- that of "0", if "PRESET:" is in it, and otherwise of type FLAGS, the number that the byte at 5 is.
pub on_data-total :
    (message : List ℕ) → (r : Request) × (on_data message ≡ some r) × IsAsked message r
unfolding on_data string_at substr
on_data-total message = elim (Bool-cases (contains preset_word message)) [
  | inl preset ↦ (
    record { bytes = u8 (get_or message 7 0 + 2 ^ 32 - 48) ∷ []; size = 1; type = dict },
    rw (preset, le→leb 7 (length message) (contains-length preset_word message preset)) refl,
    inr (_, dict, refl, inl (preset, refl, refl)),
  )
  | inr other ↦ elim (Bool-cases (contains flag_word message)) [
    | inl flag ↦ (
      record { bytes = u8 (atoi (take 1 (drop 5 message))) ∷ []; size = 1; type = flags },
      rw (other, flag, le→leb 5 (length message) (contains-length flag_word message flag)) refl,
      inr (_, flags, refl, inr (other, flag, refl, refl)),
    )
    | inr plain ↦ (
      record { bytes = message; size = length message; type = msg },
      rw (other, plain) refl,
      inl (other, plain, refl),
    )
  ]
]

-- The size that is sent is that of the bytes.
pub IsAsked-size : (message : List ℕ) (r : Request) → IsAsked message r → r.size ≡ length r.bytes
IsAsked-size message r (inl (other, plain, e)) = rw e refl
IsAsked-size message r (inr (b, t, e, which)) = rw e refl

string_at_in :
    (message : List ℕ) (i : ℕ)
    → i ≤ length message
    → string_at message i ≡ some (get_or message i 0)
unfolding string_at
string_at_in message i h = rw (le→leb i (length message) h) refl

substr_in :
    (message : List ℕ) (pos n : ℕ)
    → pos ≤ length message
    → substr message pos n ≡ some (take n (drop pos message))
unfolding substr
substr_in message pos n h = rw (le→leb pos (length message) h) refl

preset_digit : (d : ℕ) → d < 10 → u8 (48 + d + 2 ^ 32 - 48) ≡ d
preset_digit d small = omega arith

flag_digit : (d : ℕ) → d < 10 → u8 (atoi ((48 + d) ∷ [])) ≡ d
unfolding atoi
flag_digit d small = ground arith

-- A digit after "PRESET:" at the start of a message, or after "FLAG:" at the start of one without
-- "PRESET:", is sent as its value.
on_data_commands :
    (d : ℕ) (rest : List ℕ)
    → d < 10
    → (on_data (80 ∷ 82 ∷ 69 ∷ 83 ∷ 69 ∷ 84 ∷ 58 ∷ (48 + d) ∷ rest)
        ≡ some (record { bytes = d ∷ []; size = 1; type = dict }))
      × (contains preset_word (70 ∷ 76 ∷ 65 ∷ 71 ∷ 58 ∷ (48 + d) ∷ rest) ≡ false
          → on_data (70 ∷ 76 ∷ 65 ∷ 71 ∷ 58 ∷ (48 + d) ∷ rest)
            ≡ some (record { bytes = d ∷ []; size = 1; type = flags }))
unfolding on_data contains starts_with
on_data_commands d rest small = (
  rw (string_at_in (80 ∷ 82 ∷ 69 ∷ 83 ∷ 69 ∷ 84 ∷ 58 ∷ (48 + d) ∷ rest) 7 (omega arith))
      (ap (λ v. some (record { bytes = v ∷ []; size = 1; type = dict })) (preset_digit d small)),
  λ other.
      rw (other, substr_in (70 ∷ 76 ∷ 65 ∷ 71 ∷ 58 ∷ (48 + d) ∷ rest) 5 1 (omega arith))
        (ap (λ v. some (record { bytes = v ∷ []; size = 1; type = flags })) (flag_digit d small)),
)

-- What a message of 1 to 256 bytes makes `packetHandler.send` be called with.
abbrev pub IsSmall : Request → Type 0
IsSmall r = (0 < r.size) × (r.size ≤ 256) × IsBytes r.bytes

pub on_data-IsSmall :
    (message : List ℕ)
    → 0 < length message
    → length message ≤ 256
    → IsBytes message
    → Returns IsSmall (on_data message)
unfolding on_data
on_data-IsSmall message some_bytes few bytes =
    let digit = string_at message 7 in
    let number = substr message 5 1 in
    let preset : Option Request =
      digit >>= λ d. some (record { bytes = u8 (d + 2 ^ 32 - 48) ∷ []; size = 1; type = dict }) in
    let flag : Option Request =
      number >>= λ d. some (record { bytes = u8 (atoi d) ∷ []; size = 1; type = flags }) in
    let plain : Option Request =
      some (record { bytes = message; size = length message; type = msg }) in
    Returns-either IsSmall (contains preset_word message) preset
      (if contains flag_word message then flag else plain)
      (Returns->>= IsSmall digit _ (λ d e. (omega arith, omega arith, (omega arith, tt))))
      (Returns-either IsSmall (contains flag_word message) flag plain
        (Returns->>= IsSmall number _ (λ d e. (omega arith, omega arith, (omega arith, tt))))
        (some_bytes, few, bytes))
