-- ===== src/Driver/Transfer/Fifo.antt =====
-- `read_fifo`: the lengths that it can take.
use hydro_lo_ra_shield.Base.{
  ℕ, ◌+◌, ◌-◌, ◌%◌, ◌≤◌, ◌<◌, ◌≡◌, refl, ◌∙◌, List, [], ◌∷◌, ◌++◌, none, some, arith, length, take,
  drop, store_bytes, load_bytes_in, store_bytes_in, store_bytes_out, length-take, length-drop,
}
use hydro_lo_ra_shield.Base.Fault.{◌>>=◌}
use hydro_lo_ra_shield.Spi.{Spi}
use hydro_lo_ra_shield.Driver.Transfer.{read_fifo}

-- Each transfer reads as many bytes as it sends, and `new` returns as many as it was asked for.
pub record IsSized (spi : Spi) (fresh : ℕ → List ℕ) : Type 0 where
  pub length-xfer : (tx : List ℕ) (chip : spi.Chip) → length (spi.xfer tx chip).0 ≡ length tx
  pub length-fresh : (n : ℕ) → length (fresh n) ≡ n

module _ (spi : Spi) (fresh : ℕ → List ℕ) (sized : IsSized spi fresh) (buffer : List ℕ) where
  -- The bytes that `read_fifo` sends.
  abbrev pub sent : ℕ → List ℕ
  sent len = 0 ∷ drop 1 (fresh (len + 1))

  -- The bytes that it reads after the first one.
  abbrev got : ℕ → spi.Chip → List ℕ
  got len chip = take len (drop 1 (spi.xfer (sent len) chip).0)

  length-sent : (len : ℕ) → length (sent len) ≡ len + 1
  length-sent len = omega (arith, length-drop 1 (fresh (len + 1)), sized.length-fresh (len + 1))

  length-got : (len : ℕ) (chip : spi.Chip) → length (got len chip) ≡ len
  length-got len chip = omega (
    arith,
    length-take len (drop 1 (spi.xfer (sent len) chip).0),
    length-drop 1 (spi.xfer (sent len) chip).0,
    sized.length-xfer (sent len) chip,
    length-sent len,
  )

  read_fifo-got :
      (len : ℕ) (chip : spi.Chip)
      → len < 255
      → read_fifo spi fresh buffer len chip ≡ (
          store_bytes (got len chip) buffer >>= λ filled.
          some (filled, (spi.xfer (sent len) chip).1))
  unfolding read_fifo
  read_fifo-got len chip small =
      rw
        (
          size,
          store_bytes_in (0 ∷ []) (fresh (len + 1)) (omega (arith, sized.length-fresh (len + 1))),
          back,
          load_bytes_in 1 len (spi.xfer (sent len) chip).0
              (omega (arith, sized.length-xfer (sent len) chip, length-sent len)),
        )
        refl
    where
      size : (len + 1) % 256 ≡ len + 1
      size = omega arith

      back : len + 1 - 1 ≡ len
      back = omega arith

  pub read_fifo_in :
      (len : ℕ) (chip : spi.Chip)
      → len < 255
      → len ≤ length buffer
      → (filled : List ℕ) × (read_fifo spi fresh buffer len chip
          ≡ some (filled, (spi.xfer (sent len) chip).1))
  read_fifo_in len chip small fits = (
    got len chip ++ drop (length (got len chip)) buffer,
    read_fifo-got len chip small
        ∙ rw (store_bytes_in (got len chip) buffer (omega (arith, length-got len chip))) refl,
  )

  pub read_fifo_out :
      (len : ℕ) (chip : spi.Chip)
      → len < 255
      → length buffer < len
      → read_fifo spi fresh buffer len chip ≡ none
  read_fifo_out len chip small over =
      read_fifo-got len chip small
      ∙ rw (store_bytes_out (got len chip) buffer (omega (arith, length-got len chip))) refl

  -- The array for 255 bytes is empty.
  pub read_fifo_wraps : (chip : spi.Chip) → read_fifo spi fresh buffer 255 chip ≡ none
  unfolding read_fifo
  read_fifo_wraps chip =
      rw (store_bytes_out (0 ∷ []) (fresh 0) (omega (arith, sized.length-fresh 0))) refl
