-- ===== src/Padding/Delivered.antt =====
-- What `strip` hands over is in its buffer.
use hydro_lo_ra_shield.Base.{
  ℕ, ◌+◌, ◌-◌, ◌^◌, ◌%◌, ◌≤◌, ◌<◌, ◌≡◌, Bool, true, false, ◌&&◌, List, Option, none, some, arith,
  Bool-cases, inl, inr, length, u32, ltb, ◌==◌, if◌then◌else◌, get_or, get_elem?-eq-get_or,
}
use hydro_lo_ra_shield.Base.Fault.{Succeeds}
use hydro_lo_ra_shield.Padding.{
  Delivery, Verdict, valid, mismatch, no_padding, strip, check_padding, deliver,
}

-- What the callback reads is in the buffer.
abbrev pub Fits : Delivery → Type 0
Fits d = d.len ≤ length d.bytes

abbrev pub FitsIfAny : Option Delivery → Type 0
FitsIfAny none = Unit
FitsIfAny (some d) = Fits d

abbrev IsSmall : Verdict → Type 0
IsSmall (valid n) = n ≤ 15
IsSmall mismatch = Unit
IsSmall no_padding = Unit

either-IsSmall : (b : Bool) (v w : Verdict) → IsSmall v → IsSmall w → IsSmall (if b then v else w)
either-IsSmall true v w h k = h
either-IsSmall false v w h k = k

few_lem : (n : ℕ) → ltb 0 n && ltb n 16 ≡ true → n ≤ 15
few_lem n h = ground arith

check_padding-IsSmall : (n total : ℕ) (l : List ℕ) → IsSmall (check_padding n total l)
unfolding check_padding
check_padding-IsSmall n total l = elim (Bool-cases (ltb 0 n && ltb n 16)) [
  | inl few ↦ rw (few, IsSmall) (either-IsSmall _ (valid n) mismatch (few_lem n few) tt)
  | inr many ↦
      rw (many, IsSmall) (either-IsSmall (total % 16 == 0) (valid 0) no_padding (omega arith) tt)
]

deliver-FitsIfAny :
    (v : Verdict) (total : ℕ) (l : List ℕ)
    → IsSmall v
    → length l ≡ total
    → 16 ≤ total
    → total < 2 ^ 32
    → FitsIfAny (deliver v total l)
unfolding deliver
deliver-FitsIfAny (valid n) total l small len long bound = omega (arith, small)
deliver-FitsIfAny mismatch total l small len long bound = tt
deliver-FitsIfAny no_padding total l small len long bound = tt

pub strip-FitsIfAny :
    (total : ℕ) (l : List ℕ)
    → length l ≡ total
    → 16 ≤ total
    → total < 2 ^ 32
    → Succeeds FitsIfAny (strip total l)
unfolding strip
strip-FitsIfAny total l len long bound =
    rw (get_elem?-eq-get_or l (u32 (total + 2 ^ 32 - 1)) 0 (omega arith), Succeeds)
      (deliver-FitsIfAny (check_padding (get_or l (u32 (total + 2 ^ 32 - 1)) 0) total l) total l
        (check_padding-IsSmall (get_or l (u32 (total + 2 ^ 32 - 1)) 0) total l) len long bound)
