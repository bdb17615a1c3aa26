-- ===== src/Handler/Poll/Laws.antt =====
-- What `poll` does with the entries of `received`.
use hydro_lo_ra_shield.Base.{
  ℕ, ◌+◌, ◌^◌, ◌<◌, ◌≡◌, refl, sym, ap, ◌∙◌, List, [], ◌∷◌, ◌++◌, Option, none, some, arith, All,
  true, false, ◌⊎◌, inl, inr, ne→==, length, u32, load_bytes_in, length-append, length-take,
}
use native.Mathlib.Decide.{ℕ_discrete}
use hydro_lo_ra_shield.Base.Fault.{◌>>=◌}
use hydro_lo_ra_shield.Packet.{Packet, IsPacket, content}
use hydro_lo_ra_shield.Entries.{MessageEntry, Messages}
use hydro_lo_ra_shield.Padding.{Delivery}
use hydro_lo_ra_shield.Aes.{Aes}
use hydro_lo_ra_shield.Handler.{Handler}
use hydro_lo_ra_shield.Handler.Send.Fragments.{join}
use hydro_lo_ra_shield.Handler.Poll.{
  is_complete, total_length, reassemble, process, poll_entries, poll,
}

-- There are as many fragments as the first one says.
abbrev pub IsWhole : List Packet → Type 0
IsWhole [] = ⊥
IsWhole (front ∷ rest) = front.total_fragments ≡ length (front ∷ rest)

abbrev is_whole? : (fragments : List Packet) → Dec (IsWhole fragments)
is_whole? [] = no (λ e. e)
is_whole? (front ∷ rest) = ℕ_discrete front.total_fragments (length (front ∷ rest))

is_complete-IsWhole : (fragments : List Packet) → IsWhole fragments → is_complete fragments ≡ true
unfolding is_complete
is_complete-IsWhole [] whole = absurd whole
is_complete-IsWhole (front ∷ rest) whole = ground (arith, whole)

is_complete_not : (fragments : List Packet) → ¬ IsWhole fragments → is_complete fragments ≡ false
unfolding is_complete
is_complete_not [] more = refl
is_complete_not (front ∷ rest) more = ne→== front.total_fragments (length (front ∷ rest)) more

-- The entries with fragments missing, or with more of them than the first one says.
unfoldable pub pending : Messages → Messages
pending [] = []
pending ((entry, fragments) ∷ rest) = elim (is_whole? fragments) [
  | yes whole ↦ pending rest
  | no more ↦ (entry, fragments) ∷ pending rest
]

pub pending_cases :
    (entry : MessageEntry) (fragments : List Packet) (rest : Messages)
    → (pending ((entry, fragments) ∷ rest) ≡ pending rest)
      ⊎ (pending ((entry, fragments) ∷ rest) ≡ (entry, fragments) ∷ pending rest)
unfolding pending
pending_cases entry fragments rest =
    elim (is_whole? fragments)
      as (λ (d : Dec (IsWhole fragments)).
        (elim d [ yes whole ↦ pending rest | no more ↦ (entry, fragments) ∷ pending rest ]
          ≡ pending rest)
        ⊎ (elim d [ yes whole ↦ pending rest | no more ↦ (entry, fragments) ∷ pending rest ]
            ≡ (entry, fragments) ∷ pending rest)) [ yes whole ↦ inl refl | no more ↦ inr refl ]

-- A result of the loop, if there is one, keeps the entries `m`.
abbrev Keeps : {aes : Aes} → Messages → Option (Handler aes × Messages × List Delivery) → Type 0
Keeps m none = Unit
Keeps m (some (last, kept, out)) = kept ≡ m

module _ {aes : Aes} where
  Keeps-complete :
      (m : Messages) (r : Option (Handler aes × List Delivery))
      (loop : Handler aes → Option (Handler aes × Messages × List Delivery))
      → ((h : Handler aes) → Keeps m (loop h))
      → Keeps m
          (do (handled, out) ← r; (last, kept, outs) ← loop handled; some (last, kept, out ++ outs))
  Keeps-complete m none loop k = tt
  Keeps-complete m (some (handled, out)) loop k =
      elim (loop handled) as (λ r. Keeps m r → Keeps m (r >>= λ t. some (t.0, t.1, out ++ t.2))) [
        | none ↦ λ q. tt
        | some t ↦ λ q. q
      ]
        (k handled)

  Keeps-incomplete :
      (m : Messages) (entry : MessageEntry × List Packet)
      (r : Option (Handler aes × Messages × List Delivery))
      → Keeps m r
      → Keeps (entry ∷ m) (do (last, kept, outs) ← r; some (last, entry ∷ kept, outs))
  Keeps-incomplete m entry none k = tt
  Keeps-incomplete m entry (some (last, kept, outs)) k = ap (◌∷◌ entry) k

  poll_entries-Keeps :
      (dangling : ℕ → ℕ) (m : Messages) (h : Handler aes)
      → Keeps (pending m) (poll_entries dangling m h)
  unfolding poll_entries pending
  poll_entries-Keeps dangling [] h = refl
  poll_entries-Keeps dangling ((entry, fragments) ∷ rest) h =
      elim (is_whole? fragments)
        as (λ (d : Dec (IsWhole fragments)).
          Keeps (elim d [ yes whole ↦ pending rest | no more ↦ (entry, fragments) ∷ pending rest ])
            (poll_entries dangling ((entry, fragments) ∷ rest) h)) [
              | yes whole ↦
                  rw (is_complete-IsWhole fragments whole, poll_entries)
                    (Keeps-complete (pending rest) (process (dangling 0) fragments h)
                      (poll_entries (λ i. dangling (i + 1)) rest)
                      (poll_entries-Keeps (λ i. dangling (i + 1)) rest))
              | no more ↦
                  rw (is_complete_not fragments more, poll_entries)
                    (Keeps-incomplete (pending rest) (entry, fragments)
                      (poll_entries (λ i. dangling (i + 1)) rest h)
                      (poll_entries-Keeps (λ i. dangling (i + 1)) rest h))
            ]

  poll-Keeps :
      (m : Messages) (r : Option (Handler aes × Messages × List Delivery)) {last : Handler aes}
      {out : List Delivery}
      → Keeps m r
      → ◌>>=◌ {B = Handler aes × List Delivery} r (λ t. some (record (t.0) { received = t.1 }, t.2))
        ≡ some (last, out)
      → last.received ≡ m
  poll-Keeps m none k e = cc
  poll-Keeps m (some (last', kept, out')) k e = ap received_of (sym e) ∙ k
    where
      received_of : Option (Handler aes × List Delivery) → Messages
      received_of none = []
      received_of (some t) = t.0.received

  -- When `poll` returns, `received` holds the entries whose number of fragments is not the total
  -- that their first fragment says, as they were and in their order, and no other.
  pub poll-pending :
      (dangling : ℕ → ℕ) (h : Handler aes) {last : Handler aes} {out : List Delivery}
      → poll dangling h ≡ some (last, out)
      → last.received ≡ pending h.received
  unfolding poll
  poll-pending dangling h e =
      poll-Keeps (pending h.received) (poll_entries dangling h.received h)
        (poll_entries-Keeps dangling h.received h) e

-- Packets within their limits are copied without a fault.
pub reassemble-join : (ps : List Packet) → All IsPacket ps → reassemble ps ≡ some (join ps)
unfolding reassemble
reassemble-join [] fits = refl
reassemble-join (p ∷ ps) fits =
    rw
      (
        load_bytes_in 0 p.lenght p.payload (omega (arith, fits.0.lenght_fits, fits.0.payload_size)),
        reassemble-join ps fits.1,
      )
      refl

pub total_length-join :
    (acc : ℕ) (ps : List Packet)
    → All IsPacket ps
    → acc + length (join ps) < 2 ^ 32
    → total_length acc ps ≡ acc + length (join ps)
unfolding total_length
total_length-join acc [] fits small = omega arith
total_length-join acc (p ∷ ps) fits small =
    ap (λ k. total_length k ps) plain
    ∙ total_length-join (acc + p.lenght) ps fits.1 (omega (arith, joined))
    ∙ omega (arith, joined)
  where
    used : length (content p) ≡ p.lenght
    used = omega (arith, length-take p.lenght p.payload, fits.0.lenght_fits, fits.0.payload_size)

    joined : length (content p ++ join ps) ≡ p.lenght + length (join ps)
    joined = omega (arith, used, length-append (content p) (join ps))

    plain : u32 (acc + p.lenght) ≡ acc + p.lenght
    plain = omega (arith, joined)
