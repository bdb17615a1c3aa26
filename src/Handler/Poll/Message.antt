-- ===== src/Handler/Poll/Message.antt =====
-- `poll` on one complete text message.
use mathlib.Core.List.{Perm}
use hydro_lo_ra_shield.Base.{
  ℕ, ◌+◌, ◌^◌, ◌<◌, ◌≡◌, refl, sym, ap, ◌∙◌, true, List, [], ◌∷◌, some, arith, All, length,
}
use hydro_lo_ra_shield.Packet.{Packet, IsPacket, msg}
use hydro_lo_ra_shield.Padding.{Delivery, strip}
use hydro_lo_ra_shield.Entries.{MessageEntry}
use hydro_lo_ra_shield.Aes.{Aes}
use hydro_lo_ra_shield.Handler.{Handler}
use hydro_lo_ra_shield.Handler.Sort.{sort}
use hydro_lo_ra_shield.Handler.Sort.Laws.{Rising, Rising-Distinct, sort-Perm, sort-Rising}
use hydro_lo_ra_shield.Handler.Send.Fragments.{join}
use hydro_lo_ra_shield.Handler.Poll.{
  is_complete, handle_msg, front_type, process, poll_entries, poll,
}
use hydro_lo_ra_shield.Handler.Poll.Laws.{reassemble-join, total_length-join}

module _ {aes : Aes} (dangling : ℕ → ℕ) (h : Handler aes) (ps qs : List Packet) (d : Delivery)
    (order : Perm ps qs) (rising : Rising 0 ps) (fits : All IsPacket ps)
    (typed : front_type ps ≡ some msg) (callback : h.msg_callback ≡ true)
    (small : length (join ps) < 2 ^ 32)
    (stripped : strip (length (join ps)) (aes.ctr_xcrypt h.aes_ctx (join ps)).0
      ≡ some (some d)) where
  sorted : sort qs ≡ ps
  sorted = sym (sort-Perm order (Rising-Distinct 0 ps rising)) ∙ sort-Rising 0 ps rising

  handled :
      handle_msg (length (join ps)) (join ps) h
      ≡ some (record h { aes_ctx = (aes.ctr_xcrypt h.aes_ctx (join ps)).1 }, d ∷ [])
  unfolding handle_msg
  handled = ground (arith, stripped, callback)

  -- Whatever the order of arrival, the fragments are put together by their ids.
  pub process-msg :
      process (dangling 0) qs h
      ≡ some (record h { aes_ctx = (aes.ctr_xcrypt h.aes_ctx (join ps)).1 }, d ∷ [])
  unfolding process
  process-msg =
      rw (sorted, reassemble-join ps fits, total_length-join 0 ps fits (omega arith), typed, sum)
        handled
    where
      sum : 0 + length (join ps) ≡ length (join ps)
      sum = omega arith

  -- With that message alone in `received`, and all its fragments there.
  pub poll-msg :
      (entry : MessageEntry)
      → h.received ≡ (entry, qs) ∷ []
      → is_complete qs ≡ true
      → poll dangling h
        ≡ some
            (record h { aes_ctx = (aes.ctr_xcrypt h.aes_ctx (join ps)).1; received = [] }, d ∷ [])
  unfolding poll
  poll-msg entry alone complete = rw entries refl
    where
      entries :
          poll_entries dangling h.received h
          ≡ some (record h { aes_ctx = (aes.ctr_xcrypt h.aes_ctx (join ps)).1 }, [], d ∷ [])
      entries =
          ap (λ m. poll_entries dangling m h) alone
          ∙ unfold poll_entries in rw (complete, poll_entries) (rw process-msg refl)
