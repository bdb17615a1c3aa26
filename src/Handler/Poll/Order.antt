-- ===== src/Handler/Poll/Order.antt =====
-- What `poll` makes of a message does not depend on the order of arrival, nor on what else is in
-- `received`.
use mathlib.Core.List.{Perm}
use hydro_lo_ra_shield.Base.{
  ℕ, ◌≡◌, refl, sym, ap, ◌∙◌, true, List, [], ◌∷◌, ◌++◌, append-nil, Option, none, some, Bool-cases,
  inl, inr, load_bytes, store_bytes, drop,
}
use hydro_lo_ra_shield.Base.Fault.{◌>>=◌}
use hydro_lo_ra_shield.Packet.{Packet, PacketTypes, msg, encryp, ack, nack, flags, dict}
use hydro_lo_ra_shield.Endian.{load_words, store_words, swap_endianness}
use hydro_lo_ra_shield.Entries.{MessageEntry, Messages}
use hydro_lo_ra_shield.Padding.{Delivery, strip}
use hydro_lo_ra_shield.Aes.{Aes}
use hydro_lo_ra_shield.Handler.{Handler}
use hydro_lo_ra_shield.Handler.Sort.{sort}
use hydro_lo_ra_shield.Handler.Sort.Laws.{Distinct, sort-Perm}
use hydro_lo_ra_shield.Handler.Poll.{
  is_complete, handle_msg, handle_encryp, dispatch, front_type, total_length, reassemble, process,
  poll_entries, poll,
}

module _ {aes : Aes} where
  -- The same outcome with other messages in `received`.
  abbrev pub with_received :
      Messages → Option (Handler aes × List Delivery) → Option (Handler aes × List Delivery)
  with_received m none = none
  with_received m (some (h, out)) = some (record h { received = m }, out)

  with_received-then :
      {A : Type 0} (m : Messages) (r : Option A) (f g : A → Option (Handler aes × List Delivery))
      → ((a : A) → f a ≡ with_received m (g a))
      → (r >>= f) ≡ with_received m (r >>= g)
  with_received-then m none f g same = refl
  with_received-then m (some a) f g same = same a

  dispatch-received :
      (m : Messages) (t : Option PacketTypes) (dangling total : ℕ) (reassembled : List ℕ)
      (h : Handler aes)
      → dispatch t dangling total reassembled (record h { received = m })
        ≡ with_received m (dispatch t dangling total reassembled h)
  unfolding dispatch handle_msg handle_encryp
  dispatch-received m none dangling total reassembled h = refl
  dispatch-received m (some ack) dangling total reassembled h = refl
  dispatch-received m (some nack) dangling total reassembled h = refl
  dispatch-received m (some flags) dangling total reassembled h = refl
  dispatch-received m (some dict) dangling total reassembled h = refl
  dispatch-received m (some msg) dangling total reassembled h = elim (Bool-cases h.msg_callback) [
    | inl callback ↦
        rw (callback, with_received, dispatch)
          (with_received-then m (strip total (aes.ctr_xcrypt h.aes_ctx reassembled).0) _ _
            (λ d. refl))
    | inr silent ↦ rw (silent, with_received, dispatch) refl
  ]
  dispatch-received m (some encryp) dangling total reassembled h =
      with_received-then m (load_bytes 0 16 reassembled) _ _ (λ vector.
        let iv_vector = store_words (swap_endianness (load_words vector)) in
        with_received-then m (load_bytes 0 dangling (iv_vector ++ drop 16 reassembled)) _ _
          (λ copied. with_received-then m (store_bytes copied h.iv) _ _ (λ iv. refl)))

  process-received :
      (m : Messages) (dangling : ℕ) (ps : List Packet) (h : Handler aes)
      → process dangling ps (record h { received = m }) ≡ with_received m (process dangling ps h)
  unfolding process
  process-received m dangling ps h = with_received-then m (reassemble (sort ps)) _ _ (λ reassembled.
      dispatch-received m (front_type (sort ps)) dangling (total_length 0 (sort ps)) reassembled h)

  finish :
      (r : Option (Handler aes × List Delivery))
      → ◌>>=◌ {B = Handler aes × List Delivery}
          (◌>>=◌ {B = Handler aes × Messages × List Delivery} r (λ t. some (t.0, [], t.1 ++ [])))
          (λ u. some (record (u.0) { received = u.1 }, u.2))
        ≡ with_received [] r
  finish none = refl
  finish (some (h, out)) = ap (λ l. some (record h { received = [] }, l)) (append-nil out)

  -- A complete message that is alone in `received`.
  poll-alone :
      (dangling : ℕ → ℕ) (entry : MessageEntry) (ps : List Packet) (h : Handler aes)
      → is_complete ps ≡ true
      → poll dangling (record h { received = (entry, ps) ∷ [] })
        ≡ with_received [] (process (dangling 0) ps (record h { received = (entry, ps) ∷ [] }))
  unfolding poll poll_entries
  poll-alone dangling entry ps h done =
      rw (done, poll_entries)
        (finish (process (dangling 0) ps (record h { received = (entry, ps) ∷ [] })))

  with_received_twice :
      (m n : Messages) (r : Option (Handler aes × List Delivery))
      → with_received n (with_received m r) ≡ with_received n r
  with_received_twice m n none = refl
  with_received_twice m n (some (h, out)) = refl

  process-Perm :
      (dangling : ℕ) (ps qs : List Packet) (h : Handler aes)
      → Perm ps qs
      → Distinct ps
      → process dangling ps h ≡ process dangling qs h
  unfolding process
  process-Perm dangling ps qs h order distinct = rw (sort-Perm order distinct) refl

  -- What `poll` returns and delivers for a complete message.
  pub poll-process :
      (dangling : ℕ → ℕ) (entry : MessageEntry) (ps : List Packet) (h : Handler aes)
      → is_complete ps ≡ true
      → poll dangling (record h { received = (entry, ps) ∷ [] })
        ≡ with_received [] (process (dangling 0) ps h)
  poll-process dangling entry ps h done =
      poll-alone dangling entry ps h done
      ∙ ap (with_received []) (process-received ((entry, ps) ∷ []) (dangling 0) ps h)
      ∙ with_received_twice ((entry, ps) ∷ []) [] (process (dangling 0) ps h)

  -- The outcome of `poll`, whatever the type of the message, depends only on which fragments there
  -- are.
  pub poll-Perm :
      (dangling : ℕ → ℕ) (entry : MessageEntry) (ps qs : List Packet) (h : Handler aes)
      → Perm ps qs
      → Distinct ps
      → is_complete ps ≡ true
      → is_complete qs ≡ true
      → poll dangling (record h { received = (entry, ps) ∷ [] })
        ≡ poll dangling (record h { received = (entry, qs) ∷ [] })
  poll-Perm dangling entry ps qs h order distinct done done' =
      poll-process dangling entry ps h done
      ∙ ap (with_received []) (process-Perm (dangling 0) ps qs h order distinct)
      ∙ sym (poll-process dangling entry qs h done')
