-- ===== src/Padding.antt =====
-- lib/packethandler.cpp: the padding that `send` adds and the check of it in `poll`.
pub mod Laws
pub mod Lost
pub mod RoundTrip
pub mod Delivered
use hydro_lo_ra_shield.Base.{
  ℕ, ◌+◌, ◌-◌, ◌*◌, ◌/◌, ◌%◌, ◌^◌, Bool, true, ◌&&◌, List, [], ◌∷◌, Option, none, some, ltb, ◌==◌,
  if◌then◌else◌, drop, replicate, get_elem?, load_bytes, store_bytes, u8, u32,
}
use hydro_lo_ra_shield.Base.Fault.{◌>>=◌}

-- `paddedSizeBytes`.
unfoldable pub padded_size : ℕ → ℕ
padded_size size = u32 (size + 15) / 16 * 16

-- `padding_value`, a `uint32_t` difference cut to a byte.
unfoldable pub padding_value : ℕ → ℕ
unfolding padded_size
padding_value size = u8 (u32 (u8 (padded_size size) + 2 ^ 32 - size))

-- `paddedData` after the `memset` and the `memcpy`.
unfoldable pub pad : List ℕ → ℕ → Option (List ℕ)
unfolding padded_size padding_value
pad message size = do
  used ← load_bytes 0 size message
  store_bytes used (replicate (padded_size size) (padding_value size))

-- What the callback is called with: the buffer, and how many bytes it is told to read.
pub record Delivery : Type 0 where
  pub bytes : List ℕ
  pub len : ℕ

-- `padding_length` after the check: a length, -1 or -2.
pub data Verdict : Type 0 where
  valid : ℕ → Verdict
  mismatch no_padding : Verdict

unfoldable pub all_are : ℕ → List ℕ → Bool
all_are v [] = true
all_are v (b ∷ bs) = b == v && all_are v bs

-- The loop starts at `total_length - padding_length`, a `uint32_t`.
unfoldable pub check_padding : ℕ → ℕ → List ℕ → Verdict
unfolding all_are
check_padding padding_length total_length reassembled =
    if ltb 0 padding_length && ltb padding_length 16
    then (if all_are padding_length
          (drop (u32 (total_length + 2 ^ 32 - padding_length)) reassembled)
        then valid padding_length
        else mismatch)
    else if total_length % 16 == 0
    then valid 0
    else no_padding

unfoldable pub deliver : Verdict → ℕ → List ℕ → Option Delivery
deliver (valid n) total_length reassembled =
    some (record { bytes = reassembled; len = u32 (total_length + 2 ^ 32 - n) })
deliver mismatch total_length reassembled = none
deliver no_padding total_length reassembled = none

-- From the read of the last byte to the callback, if it is called. The read is a fault in an
-- empty buffer.
unfoldable pub strip : ℕ → List ℕ → Option (Option Delivery)
unfolding check_padding deliver
strip total_length reassembled = do
  padding_length ← get_elem? reassembled (u32 (total_length + 2 ^ 32 - 1))
  some (deliver (check_padding padding_length total_length reassembled) total_length reassembled)
