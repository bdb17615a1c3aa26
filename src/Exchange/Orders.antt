-- ===== src/Exchange/Orders.antt =====
-- A message of any type whose fragments reach the receiver in two orders.
use mathlib.Core.List.{Permᴰ}
use hydro_lo_ra_shield.Base.{
  ℕ, ◌<◌, ◌≡◌, sym, ap, ◌∙◌, true, List, [], ◌∷◌, some, arith, length, All, All-Permᴰ, length-Permᴰ,
  map-Permᴰ,
}
use hydro_lo_ra_shield.Base.Fault.{◌>>=◌}
use hydro_lo_ra_shield.Aes.{Aes}
use hydro_lo_ra_shield.Entries.{push_all}
use hydro_lo_ra_shield.Handler.{Handler}
use hydro_lo_ra_shield.Handler.Receive.{incoming}
use hydro_lo_ra_shield.Handler.Sort.Laws.{Distinct}
use hydro_lo_ra_shield.Handler.Poll.{is_complete, poll}
use hydro_lo_ra_shield.Handler.Poll.Order.{poll-Perm}
use hydro_lo_ra_shield.Exchange.Arrivals.{
  Arrival, kept, kepts, IsSent, accept_all, accept_all-push_all,
}
use hydro_lo_ra_shield.Exchange.Delivery.{HasTotal, complete, pushed, length-kepts}

-- The packet says that its message has `total` fragments.
abbrev pub IsOfTotal : ℕ → Arrival → Type 0
IsOfTotal total a = a.packet.total_fragments ≡ total

kepts-HasTotal :
    (total : ℕ) (l : List Arrival) → All (IsOfTotal total) l → All (HasTotal total) (kepts l)
kepts-HasTotal total [] h = tt
kepts-HasTotal total (a ∷ l) h = (h.0, kepts-HasTotal total l h.1)

module _ {aes : Aes} (id total : ℕ) (dangling : ℕ → ℕ) (h : Handler aes) (fresh : h.received ≡ [])
    (pos : 0 < total) where
  arrived_and_polled :
      (l : List Arrival)
      → All (IsSent id) l
      → length l ≡ total
      → (accept_all l h >>= poll dangling)
        ≡ poll dangling (record h { received = (incoming id, kepts l) ∷ [] })
  arrived_and_polled l sent count =
      ap (λ r. r >>= poll dangling)
        (accept_all-push_all id l h sent
          ∙ ap (λ m. some (record h { received = m }))
              (ap (push_all (incoming id) (kepts l)) fresh
                ∙ pushed id (kepts l) (omega (arith, length-kepts l))))

  kepts-is_complete :
      (l : List Arrival) → All (IsOfTotal total) l → length l ≡ total → is_complete (kepts l) ≡ true
  kepts-is_complete l totals count =
      complete total (kepts l) (kepts-HasTotal total l totals) (length-kepts l ∙ count) pos

  -- All the fragments of one message, of any type, reach a receiver with an empty `received`: the
  -- outcome of `receive` on each frame and the `poll` after them, a fault or what is delivered and
  -- the handler that is left, is the same for any two orders of arrival, when the fragments have
  -- distinct ids and each says how many there are.
  pub accept_all-poll :
      (sent arrivals : List Arrival)
      → Permᴰ sent arrivals
      → All (IsSent id) sent
      → All (IsOfTotal total) sent
      → length sent ≡ total
      → Distinct (kepts sent)
      → (accept_all sent h >>= poll dangling) ≡ (accept_all arrivals h >>= poll dangling)
  accept_all-poll sent arrivals order sents totals count distinct =
      let count' : length arrivals ≡ total = sym (length-Permᴰ order) ∙ count in
      arrived_and_polled sent sents count
      ∙ poll-Perm dangling (incoming id) (kepts sent) (kepts arrivals) h ∣ map-Permᴰ kept order ∣₁
          distinct (kepts-is_complete sent totals count)
          (kepts-is_complete arrivals (All-Permᴰ (IsOfTotal total) order totals) count')
      ∙ sym (arrived_and_polled arrivals (All-Permᴰ (IsSent id) order sents) count')
