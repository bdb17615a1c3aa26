-- ===== src/Handler/Clean.antt =====
-- What `clean` drops.
use mathlib.Core.List.{filter, Mem, mem-filter}
use native.Mathlib.Decide.{dec_lt}
use hydro_lo_ra_shield.Base.{ℕ, ◌<◌, ◌≡◌, ◌↔◌, refl, List, [], ◌∷◌, arith}
use hydro_lo_ra_shield.Packet.{Packet}
use hydro_lo_ra_shield.Entries.{Messages, MessageEntry}
use hydro_lo_ra_shield.Aes.{Aes}
use hydro_lo_ra_shield.Handler.{Handler, unexpired, clean}

unexpired-filter :
    (now : ℕ) (m : Messages) → unexpired now m ≡ filter (λ e. dec_lt now e.0.expiration) m
unfolding unexpired
unexpired-filter now [] = refl
unexpired-filter now ((entry, pkts) ∷ rest) = ground (arith, unexpired-filter now rest)

-- After `clean`, an entry is among the outgoing messages exactly when it was there and expires
-- after `now`; the received messages are as they were, whatever their age.
pub clean-Mem :
    {aes : Aes} (now : ℕ) (h : Handler aes) (e : MessageEntry × List Packet)
    → (Mem e (clean now h).messages ↔ (Mem e h.messages × (now < e.0.expiration)))
      × ((clean now h).received ≡ h.received)
unfolding clean
clean-Mem now h e =
    (rw (unexpired-filter now h.messages) (mem-filter (λ e. dec_lt now e.0.expiration)), refl)
