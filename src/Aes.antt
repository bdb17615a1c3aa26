-- ===== src/Aes.antt =====
-- The AES library that lib/packethandler.cpp calls (lib/aes.c, a copy of tiny-AES-c): its three
-- calls as a parameter, with what its header documents of them as laws.
use hydro_lo_ra_shield.Base.{ℕ, ◌≡◌, List, length, IsBytes}

pub record Aes : Type 1 where
  -- `AES_ctx`.
  pub Ctx : Type 0
  -- `AES_init_ctx_iv`: the key, then the vector.
  pub init_ctx_iv : List ℕ → List ℕ → Ctx
  pub ctx_set_iv : Ctx → List ℕ → Ctx
  -- `AES_CTR_xcrypt_buffer`: the buffer and the context that it leaves.
  pub ctr_xcrypt : Ctx → List ℕ → List ℕ × Ctx

pub record AesLaws (aes : Aes) : Type 0 where
  -- The work is done in place, on bytes.
  pub length-ctr_xcrypt :
      (c : aes.Ctx) (buf : List ℕ) → length (aes.ctr_xcrypt c buf).0 ≡ length buf
  pub ctr_xcrypt-IsBytes :
      (c : aes.Ctx) (buf : List ℕ) → IsBytes buf → IsBytes (aes.ctr_xcrypt c buf).0
  -- "Same function for encrypting as for decrypting."
  pub ctr_xcrypt_twice :
      (c : aes.Ctx) (buf : List ℕ)
      → IsBytes buf
      → (aes.ctr_xcrypt c (aes.ctr_xcrypt c buf).0).0 ≡ buf
  -- The vector of a context is the one that was set last.
  pub set_iv_init :
      (key iv iv' : List ℕ) → aes.ctx_set_iv (aes.init_ctx_iv key iv) iv' ≡ aes.init_ctx_iv key iv'
