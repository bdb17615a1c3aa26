-- ===== src/Exchange/Delivery.antt =====
-- The fragments of one message, received in any order and polled.
use mathlib.Core.List.{Permᴰ}
use hydro_lo_ra_shield.Base.{
  ℕ, suc, ◌^◌, ◌<◌, ◌≡◌, refl, sym, ap, ◌∙◌, true, List, [], ◌∷◌, some, arith, length, All, ==_refl,
  All-Permᴰ, length-Permᴰ, map-Permᴰ,
}
use hydro_lo_ra_shield.Packet.{Packet, msg, type_code, type_of}
use hydro_lo_ra_shield.Entries.{push_all}
use hydro_lo_ra_shield.Entries.Laws.{push_all_alone}
use hydro_lo_ra_shield.Padding.{Delivery, strip}
use hydro_lo_ra_shield.Aes.{Aes, AesLaws}
use hydro_lo_ra_shield.Handler.{Handler}
use hydro_lo_ra_shield.Handler.Send.Fragments.{join, Run}
use hydro_lo_ra_shield.Handler.Receive.{incoming}
use hydro_lo_ra_shield.Handler.Poll.{is_complete, front_type, poll}
use hydro_lo_ra_shield.Handler.Poll.Message.{poll-msg}
use hydro_lo_ra_shield.Exchange.Arrivals.{
  Arrival, kept, kepts, packets, HasRoom, IsSent, accept_all, accept_all-push_all, join-kepts,
  kepts-Rising, kepts-IsPacket, Run-IsSent,
}

length-packets : (arrivals : List Arrival) → length (packets arrivals) ≡ length arrivals
length-packets [] = refl
length-packets (a ∷ l) = ap suc (length-packets l)

abbrev pub HasTotal : ℕ → Packet → Type 0
HasTotal total p = p.total_fragments ≡ total

kepts-HasTotal :
    (type id total idx : ℕ) (l : List Arrival)
    → Run type id total idx (packets l)
    → All (HasTotal total) (kepts l)
kepts-HasTotal type id total idx [] run = tt
kepts-HasTotal type id total idx (a ∷ l) run =
    (run.0.total_is, kepts-HasTotal type id total (suc idx) l run.1)

pub length-kepts : (l : List Arrival) → length (kepts l) ≡ length l
length-kepts [] = refl
length-kepts (a ∷ l) = ap suc (length-kepts l)

pub complete :
    (total : ℕ) (ps : List Packet)
    → All (HasTotal total) ps
    → length ps ≡ total
    → 0 < total
    → is_complete ps ≡ true
unfolding is_complete
complete total [] same count pos = absurd (omega arith)
complete total (p ∷ ps) same count pos = rw same.0 (rw (← count) (==_refl (length (p ∷ ps))))

-- The only entry that the pushed packets make.
pub pushed :
    (id : ℕ) (ps : List Packet)
    → 0 < length ps
    → push_all (incoming id) ps [] ≡ (incoming id, ps) ∷ []
pushed id [] pos = absurd (omega arith)
pushed id (p ∷ ps) pos = push_all_alone (incoming id) p ps

front :
    (type id total : ℕ) (l : List Arrival)
    → Run type id total 0 (packets l)
    → 0 < length l
    → front_type (kepts l) ≡ type_of type
unfolding front_type
front type id total [] run pos = absurd (omega arith)
front type id total (a ∷ l) run pos = ap type_of run.0.type_is

module _ {aes : Aes} (laws : AesLaws aes) (id total : ℕ) (dangling : ℕ → ℕ) (cipher : List ℕ)
    (d : Delivery) (sent arrivals : List Arrival)
    (run : Run (type_code msg) id total 0 (packets sent)) (carried : join (packets sent) ≡ cipher)
    (count : length (packets sent) ≡ total) (pos : 0 < total) (small : length cipher < 2 ^ 32)
    (room : All HasRoom sent) (order : Permᴰ sent arrivals) (h : Handler aes)
    (fresh : h.received ≡ []) (callback : h.msg_callback ≡ true)
    (stripped : strip (length cipher) (aes.ctr_xcrypt h.aes_ctx cipher).0 ≡ some (some d)) where
  pub arrived : Handler aes
  arrived = record h { received = (incoming id, kepts arrivals) ∷ [] }

  arrivals_count : length (kepts arrivals) ≡ total
  arrivals_count =
      length-kepts arrivals ∙ sym (length-Permᴰ order) ∙ sym (length-packets sent) ∙ count

  pub all_accepted : accept_all arrivals h ≡ some arrived
  unfolding arrived
  all_accepted =
      accept_all-push_all id arrivals h
        (All-Permᴰ (IsSent id) order (Run-IsSent (type_code msg) id total 0 sent run room))
      ∙ ap (λ m. some (record h { received = m }))
          (ap (push_all (incoming id) (kepts arrivals)) fresh
            ∙ pushed id (kepts arrivals) (omega (arith, arrivals_count)))

  carried_kept : join (kepts sent) ≡ cipher
  carried_kept = join-kepts (type_code msg) id total 0 sent run ∙ carried

  pub polled :
      poll dangling arrived
      ≡ some (record h { aes_ctx = (aes.ctr_xcrypt h.aes_ctx cipher).1; received = [] }, d ∷ [])
  unfolding arrived
  polled =
      poll-msg dangling arrived (kepts sent) (kepts arrivals) d ∣ map-Permᴰ kept order ∣₁
        (kepts-Rising (type_code msg) id total 0 sent run)
        (kepts-IsPacket (type_code msg) id total 0 sent run room)
        (front (type_code msg) id total sent run (omega (arith, count, length-packets sent)))
        callback (rw carried_kept small) (rw carried_kept stripped) (incoming id) refl
        (complete total (kepts arrivals)
          (All-Permᴰ (HasTotal total) (map-Permᴰ kept order)
            (kepts-HasTotal (type_code msg) id total 0 sent run))
          arrivals_count pos)
      ∙ ap
          (λ c. some (record h { aes_ctx = (aes.ctr_xcrypt h.aes_ctx c).1; received = [] }, d ∷ []))
          carried_kept
