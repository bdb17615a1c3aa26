-- ===== src/Tests/Toys.antt =====
-- A cipher and a radio that meet the laws: the parameters of the model have instances.
use hydro_lo_ra_shield.Base.{
  ℕ, suc, ◌-◌, ◌<◌, ◌≤◌, ◌≡◌, refl, ap, ap₂, Bool, true, false, List, [], ◌∷◌, ◌++◌, Option, none,
  some, arith, length, IsBytes, if◌then◌else◌,
}
use hydro_lo_ra_shield.Aes.{Aes, AesLaws}
use hydro_lo_ra_shield.Link.{Link, LinkLaws, Reception, attempts}

abbrev pub complement : List ℕ → List ℕ
complement [] = []
complement (b ∷ bs) = (255 - b) ∷ complement bs

-- Every byte is complemented; the context is the key and the vector.
abbrev pub toy_aes : Aes
toy_aes = record {
  Ctx = List ℕ × List ℕ;
  init_ctx_iv = λ key iv. (key, iv);
  ctx_set_iv = λ c iv. (c.0, iv);
  ctr_xcrypt = λ c buf. (complement buf, c);
}

length-complement : (bs : List ℕ) → length (complement bs) ≡ length bs
length-complement [] = refl
length-complement (b ∷ bs) = ap suc (length-complement bs)

complement-IsBytes : (bs : List ℕ) → IsBytes (complement bs)
complement-IsBytes [] = tt
complement-IsBytes (b ∷ bs) = (omega arith, complement-IsBytes bs)

complement_twice : (bs : List ℕ) → IsBytes bs → complement (complement bs) ≡ bs
complement_twice [] h = refl
complement_twice (b ∷ bs) h = ap₂ ◌∷◌ (omega (arith, h.0)) (complement_twice bs h.1)

pub toy_aes_laws : AesLaws toy_aes
toy_aes_laws = record {
  length-ctr_xcrypt = λ c buf. length-complement buf;
  ctr_xcrypt-IsBytes = λ c buf h. complement-IsBytes buf;
  ctr_xcrypt_twice = λ c buf h. complement_twice buf h;
  set_iv_init = λ key iv iv'. refl;
}

-- A radio that refuses the first attempt for every frame.
pub record ToyRadio : Type 0 where
  pub busy : Bool
  pub sent : List (List ℕ)
  pub inbox : Option Reception

abbrev pub toy_link : Link
toy_link = record {
  Radio = ToyRadio;
  send = λ buffer r.
      if r.busy
      then (false, record r { busy = false })
      else (true, record r { busy = true; sent = r.sent ++ buffer ∷ [] });
  receive = λ rx max_len timeout r. elim r.inbox [ none ↦ none | some got ↦ some (got, r) ];
  sleep = λ ms r. r;
}

toy_accepts :
    (buffer : List ℕ) (r : ToyRadio)
    → (n : ℕ) × (n < 2) × ((toy_link.send buffer (attempts toy_link n buffer r)).0 ≡ true)
unfolding attempts
toy_accepts buffer r =
    elim r.busy
        as (λ b.
          r.busy ≡ b
          → (n : ℕ) × (n < 2) × ((toy_link.send buffer (attempts toy_link n buffer r)).0 ≡ true)) [
            | true ↦ λ e. (1, omega arith, rw e refl)
            | false ↦ λ e. (0, omega arith, rw e refl)
          ]
      refl

pub toy_link_laws : LinkLaws toy_link
toy_link_laws = record {
  air = λ r. r.sent;
  air-send = λ buffer r small e. ground arith;
  air-send_refused = λ buffer r small e. ground arith;
  air-sleep = λ ms r. refl;
  patience = 2;
  accepts = λ buffer r small. toy_accepts buffer r;
}

pub toy_patience : toy_link_laws.patience ≤ 2
unfolding toy_link_laws
toy_patience = omega arith
