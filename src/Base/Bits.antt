-- ===== src/Base/Bits.antt =====
-- `|` of disjoint fields and `&` with a mask, as arithmetic on the native numbers.
use Prim.Native.Nat.{
  ℕ, zero, suc, ◌+◌, ◌*◌, ◌/◌, ◌%◌, ◌^◌, ◌≤◌, ◌<◌, min, max, bit_and, bit_or, digits, bitwise,
  bit_and-bitwise, bit_or-bitwise,
}
use mathlib.Core.Path.{◌≡◌, refl, sym, ap, ◌∙◌}
use native.Mathlib.Nat.{pow-suc}
use native.Mathlib.Omega.{arith}

module _ (z : ℕ → ℕ) (f : ℕ → ℕ → ℕ) where
  digits_of_zero : (fuel b : ℕ) → digits z f fuel 0 b ≡ z b
  digits_of_zero zero b = refl
  digits_of_zero (suc fuel) b = refl

  -- Fuel for `v` gives what any other such fuel gives.
  digits_enough :
      (v w less more : ℕ) → v ≤ less → v ≤ more → digits z f less v w ≡ digits z f more v w
  digits_enough zero w less more _ _ = digits_of_zero less w ∙ sym (digits_of_zero more w)
  digits_enough (suc v) w zero more short _ = absurd (omega arith)
  digits_enough (suc v) w (suc less) zero _ short = absurd (omega arith)
  digits_enough (suc v) w (suc less) (suc more) p q =
      rw (digits_enough (suc v / 2) (w / 2) less more (omega arith) (omega arith))

  lowest_digit :
      (a b : ℕ)
      → bitwise z f (suc a) b ≡ bitwise z f (suc a / 2) (b / 2) * 2 + f (suc a % 2) (b % 2)
  lowest_digit a b =
      omega (arith, digits_enough (suc a / 2) (b / 2) a (suc a / 2) (omega arith) (omega arith))

pub bit_or_digit : (a b : ℕ) → bit_or a b ≡ bit_or (a / 2) (b / 2) * 2 + max (a % 2) (b % 2)
bit_or_digit zero b = simp bit_or-bitwise (omega arith)
bit_or_digit (suc a) b = simp bit_or-bitwise (lowest_digit (λ y. y) max a b)

pub bit_and_digit : (a b : ℕ) → bit_and a b ≡ bit_and (a / 2) (b / 2) * 2 + min (a % 2) (b % 2)
bit_and_digit zero b = simp bit_and-bitwise (omega arith)
bit_and_digit (suc a) b = simp bit_and-bitwise (lowest_digit (λ y. 0) min a b)

or_zero_below : (n a : ℕ) → a ≤ n → bit_or a 0 ≡ a
or_zero_below n zero h = refl
or_zero_below zero (suc a) h = absurd (omega arith)
or_zero_below (suc n) (suc a) h =
    omega (arith, bit_or_digit (suc a) 0, or_zero_below n (suc a / 2) (omega arith))

pub bit_or-zero : (a : ℕ) → bit_or a 0 ≡ a
bit_or-zero a = or_zero_below a a (omega arith)

and_zero_below : (n a : ℕ) → a ≤ n → bit_and a 0 ≡ 0
and_zero_below n zero h = refl
and_zero_below zero (suc a) h = absurd (omega arith)
and_zero_below (suc n) (suc a) h =
    omega (arith, bit_and_digit (suc a) 0, and_zero_below n (suc a / 2) (omega arith))

pub bit_and-zero : (a : ℕ) → bit_and a 0 ≡ 0
bit_and-zero a = and_zero_below a a (omega arith)

double_power : (q k : ℕ) → q * 2 ^ suc k ≡ 2 * (q * 2 ^ k)
double_power q k = omega (arith, ap (λ (t : ℕ). q * t) (pow-suc 2 k))

-- A high field and a low one that fits below it do not overlap.
pub bit_or_fields : (k hi lo : ℕ) → lo < 2 ^ k → bit_or (hi * 2 ^ k) lo ≡ hi * 2 ^ k + lo
bit_or_fields zero hi lo h = ground (arith, bit_or-zero hi)
bit_or_fields (suc k) hi lo h = ground (
  arith,
  bit_or_digit (hi * 2 ^ suc k) lo,
  double_power hi k,
  bit_or_fields k hi (lo / 2) (omega arith),
)

or_comm_below : (n a b : ℕ) → a ≤ n → b ≤ n → bit_or a b ≡ bit_or b a
or_comm_below n zero zero p q = refl
or_comm_below n zero (suc b) p q = omega (arith, bit_or-bitwise 0 (suc b), bit_or-zero (suc b))
or_comm_below n (suc a) zero p q = omega (arith, bit_or-bitwise 0 (suc a), bit_or-zero (suc a))
or_comm_below zero (suc a) (suc b) p q = absurd (omega arith)
or_comm_below (suc n) (suc a) (suc b) p q = omega (
  arith,
  bit_or_digit (suc a) (suc b),
  bit_or_digit (suc b) (suc a),
  or_comm_below n (suc a / 2) (suc b / 2) (omega arith) (omega arith),
)

pub bit_or_comm : (a b : ℕ) → bit_or a b ≡ bit_or b a
bit_or_comm a b = or_comm_below (a + b) a b (omega arith) (omega arith)

-- Doubling the mask halves the number under it.
pub bit_and_double : (v m : ℕ) → bit_and v (2 * m) ≡ 2 * bit_and (v / 2) m
bit_and_double v m = omega (arith, bit_and_digit v (2 * m), ap (bit_and (v / 2)) half)
  where
    half : 2 * m / 2 ≡ m
    half = omega arith

pub bit_and_odd : (v m : ℕ) → bit_and v (2 * m + 1) ≡ 2 * bit_and (v / 2) m + v % 2
bit_and_odd v m = omega (arith, bit_and_digit v (2 * m + 1), ap (bit_and (v / 2)) half)
  where
    half : (2 * m + 1) / 2 ≡ m
    half = omega arith

-- The masks of the program.
pub bit_and_1 : (v : ℕ) → bit_and v 1 ≡ v % 2
bit_and_1 v = omega (arith, bit_and_odd v 0, bit_and-zero (v / 2))

pub bit_and_3 : (v : ℕ) → bit_and v 3 ≡ v % 4
bit_and_3 v = omega (arith, bit_and_odd v 1, bit_and_1 (v / 2))

pub bit_and_15 : (v : ℕ) → bit_and v 0x0f ≡ v % 16
bit_and_15 v = omega (arith, bit_and_odd v 7, bit_and_odd (v / 2) 3, bit_and_3 (v / 2 / 2))

pub bit_and_127 : (v : ℕ) → bit_and v 0x7f ≡ v % 128
bit_and_127 v = omega (
  arith,
  bit_and_odd v 63,
  bit_and_odd (v / 2) 31,
  bit_and_odd (v / 2 / 2) 15,
  bit_and_15 (v / 2 / 2 / 2),
)

pub bit_and_255 : (v : ℕ) → bit_and v 0xff ≡ v % 256
bit_and_255 v = omega (
  arith,
  bit_and_odd v 127,
  bit_and_odd (v / 2) 63,
  bit_and_odd (v / 2 / 2) 31,
  bit_and_odd (v / 2 / 2 / 2) 15,
  bit_and_15 (v / 2 / 2 / 2 / 2),
)

-- A mask moved up.
module _ (v m : ℕ) where
  bit_and_2_up : bit_and v (4 * m) ≡ 4 * bit_and (v / 4) m
  bit_and_2_up = omega (
    arith,
    ap (bit_and v) twice,
    bit_and_double v (2 * m),
    bit_and_double (v / 2) m,
    ap (λ (t : ℕ). bit_and t m) quarter,
  )
    where
      twice : 4 * m ≡ 2 * (2 * m)
      twice = omega arith

      quarter : v / 2 / 2 ≡ v / 4
      quarter = omega arith

module _ (v m : ℕ) where
  bit_and_4_up : bit_and v (16 * m) ≡ 16 * bit_and (v / 16) m
  bit_and_4_up = omega (
    arith,
    ap (bit_and v) twice,
    bit_and_2_up v (4 * m),
    bit_and_2_up (v / 4) m,
    ap (λ (t : ℕ). bit_and t m) sixteenth,
  )
    where
      twice : 16 * m ≡ 4 * (4 * m)
      twice = omega arith

      sixteenth : v / 4 / 4 ≡ v / 16
      sixteenth = omega arith

-- A mask moved up by eight bits.
pub bit_and_byte : (v m : ℕ) → bit_and v (256 * m) ≡ 256 * bit_and (v / 256) m
bit_and_byte v m = omega (
  arith,
  ap (bit_and v) twice,
  bit_and_4_up v (16 * m),
  bit_and_4_up (v / 16) m,
  ap (λ (t : ℕ). bit_and t m) part,
)
  where
    twice : 256 * m ≡ 16 * (16 * m)
    twice = omega arith

    part : v / 16 / 16 ≡ v / 256
    part = omega arith
