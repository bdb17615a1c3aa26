-- ===== src/Base/Memory.antt =====
-- C arrays as lists of bytes: a copy that leaves its array is a fault, the outcome `none`.
use Prim.Native.Nat.{ℕ, ◌+◌, ◌≤◌, ◌<◌}
use mathlib.Core.Path.{◌≡◌}
use mathlib.Core.List.{List, ◌++◌}
use mathlib.Core.Option.{Option, none, some}
use native.Mathlib.Omega.{arith}
use hydro_lo_ra_shield.Base.Tests.{leb, le→leb, gt→leb, if◌then◌else◌}
use hydro_lo_ra_shield.Base.Lists.{length, take, drop, All}

abbrev pub IsByte : ℕ → Type 0
IsByte b = b < 256

abbrev pub IsBytes : List ℕ → Type 0
IsBytes bs = All IsByte bs

-- The `n` bytes at `off`, as the source of a `memcpy`.
unfoldable pub load_bytes : ℕ → ℕ → List ℕ → Option (List ℕ)
load_bytes off n mem = if leb (off + n) (length mem) then some (take n (drop off mem)) else none

-- A `memcpy` of `bytes` to the start of an array.
unfoldable pub store_bytes : List ℕ → List ℕ → Option (List ℕ)
store_bytes bytes mem =
    if leb (length bytes) (length mem) then some (bytes ++ drop (length bytes) mem) else none

pub load_bytes_in :
    (off n : ℕ) (mem : List ℕ)
    → off + n ≤ length mem
    → load_bytes off n mem ≡ some (take n (drop off mem))
unfolding load_bytes
load_bytes_in off n mem h = ground (arith, le→leb (off + n) (length mem) h)

pub load_bytes_out : (off n : ℕ) (mem : List ℕ) → length mem < off + n → load_bytes off n mem ≡ none
unfolding load_bytes
load_bytes_out off n mem h = ground (arith, gt→leb (off + n) (length mem) h)

pub store_bytes_in :
    (bytes mem : List ℕ)
    → length bytes ≤ length mem
    → store_bytes bytes mem ≡ some (bytes ++ drop (length bytes) mem)
unfolding store_bytes
store_bytes_in bytes mem h = ground (arith, le→leb (length bytes) (length mem) h)

pub store_bytes_out :
    (bytes mem : List ℕ) → length mem < length bytes → store_bytes bytes mem ≡ none
unfolding store_bytes
store_bytes_out bytes mem h = ground (arith, gt→leb (length bytes) (length mem) h)
