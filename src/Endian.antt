-- ===== src/Endian.antt =====
-- lib/packethandler.cpp: `u32_to_bytes`, `swap_endianness`, and the casts between byte arrays and
-- arrays of words on the Raspberry Pi, which is little-endian.
pub mod Laws
use hydro_lo_ra_shield.Base.{ℕ, ◌+◌, ◌*◌, List, [], ◌∷◌, map, bit_and, bit_or, u32, ◌<<<◌, ◌>>>◌}

-- `reinterpret_cast<uint32_t *>` of a byte array, as a list of whole words.
unfoldable pub load_words : List ℕ → List ℕ
load_words (a ∷ b ∷ c ∷ d ∷ bs) = (a + b * 256 + c * 65536 + d * 16777216) ∷ load_words bs
load_words _ = []

-- `reinterpret_cast<uint8_t *>` of a word array.
unfoldable pub store_words : List ℕ → List ℕ
store_words [] = []
store_words (w ∷ ws) =
    bit_and w 0xff
    ∷ bit_and (w >>> 8) 0xff
    ∷ bit_and (w >>> 16) 0xff
    ∷ bit_and (w >>> 24) 0xff
    ∷ store_words ws

-- `u32_to_bytes`, over the words of its array.
unfoldable pub u32_to_bytes : List ℕ → List ℕ
u32_to_bytes [] = []
u32_to_bytes (w ∷ ws) =
    bit_and (w >>> 24) 0xff
    ∷ bit_and (w >>> 16) 0xff
    ∷ bit_and (w >>> 8) 0xff
    ∷ bit_and w 0xff
    ∷ u32_to_bytes ws

-- One round of the loop in `swap_endianness`.
unfoldable pub swap_word : ℕ → ℕ
swap_word v =
    bit_or
      (bit_or (bit_or (u32 (bit_and v 0x000000ff <<< 24)) (u32 (bit_and v 0x0000ff00 <<< 8)))
        (bit_and v 0x00ff0000 >>> 8))
      (bit_and v 0xff000000 >>> 24)

unfoldable pub swap_endianness : List ℕ → List ℕ
swap_endianness = map swap_word
