-- ===== src/Handler/Invariant/Poll.antt =====
-- `poll` keeps the handler's invariant.
use mathlib.Core.Path.{subst}
use hydro_lo_ra_shield.Base.{
  ◌+◌, ℕ, ◌≡◌, sym, List, [], ◌∷◌, Option, none, some, arith, All, Bool-cases, inl, inr, length,
  drop, load_bytes, store_bytes, leb, leb→le, length-append, length-drop,
}
use hydro_lo_ra_shield.Base.Fault.{Returns, Returns->>=, Returns_lem, Returns-then}
use hydro_lo_ra_shield.Packet.{Packet, PacketTypes, msg, encryp, ack, nack, flags, dict}
use hydro_lo_ra_shield.Entries.{Messages}
use hydro_lo_ra_shield.Aes.{Aes}
use hydro_lo_ra_shield.Handler.{Handler}
use hydro_lo_ra_shield.Padding.{Delivery, strip}
use hydro_lo_ra_shield.Handler.Sort.{sort}
use hydro_lo_ra_shield.Handler.Poll.{
  handle_msg, handle_encryp, dispatch, process, front_type, total_length, reassemble, is_complete,
  poll_entries, poll,
}
use hydro_lo_ra_shield.Handler.Poll.Laws.{pending, pending_cases, poll-pending}
use hydro_lo_ra_shield.Handler.Send.{fragments}
use hydro_lo_ra_shield.Handler.Invariant.{HasOther, IsReceived, IsHandler}

-- What is copied over the vector leaves it 16 bytes.
store_bytes-vector :
    (bytes iv : List ℕ) → length iv ≡ 16 → Returns (λ l. length l ≡ 16) (store_bytes bytes iv)
unfolding store_bytes
store_bytes-vector bytes iv size = elim (Bool-cases (leb (length bytes) (length iv))) [
  | inl inside ↦ rw inside (
      omega (
        arith,
        length-append bytes (drop (length bytes) iv),
        length-drop (length bytes) iv,
        leb→le (length bytes) (length iv) inside,
      ))
  | inr outside ↦ rw outside tt
]

module _ {aes : Aes} where
  abbrev pub HasVector : (R : Type 0) → Handler aes × R → Type 0
  HasVector R r = length r.0.iv ≡ 16

  -- The same of the loop's result.
  abbrev KeepsVector : Handler aes × Messages × List Delivery → Type 0
  KeepsVector r = length r.0.iv ≡ 16

  dispatch-HasVector :
      (t : Option PacketTypes) (dangling total : ℕ) (reassembled : List ℕ) (h : Handler aes)
      → length h.iv ≡ 16
      → Returns (HasVector (List Delivery)) (dispatch t dangling total reassembled h)
  unfolding dispatch handle_msg handle_encryp
  dispatch-HasVector none dangling total reassembled h size = size
  dispatch-HasVector (some ack) dangling total reassembled h size = size
  dispatch-HasVector (some nack) dangling total reassembled h size = size
  dispatch-HasVector (some flags) dangling total reassembled h size = size
  dispatch-HasVector (some dict) dangling total reassembled h size = size
  dispatch-HasVector (some msg) dangling total reassembled h size =
      elim (Bool-cases h.msg_callback) [
        | inl callback ↦
            rw (callback, Returns, dispatch)
              (Returns->>= (HasVector (List Delivery))
                (strip total (aes.ctr_xcrypt h.aes_ctx reassembled).0) _ (λ d e. size))
        | inr silent ↦ rw (silent, Returns, dispatch) size
      ]
  dispatch-HasVector (some encryp) dangling total reassembled h size =
      Returns->>= (HasVector (List Delivery)) (load_bytes 0 16 reassembled) _ (λ vector e.
        Returns->>= (HasVector (List Delivery)) (load_bytes 0 dangling _) _ (λ copied f.
          Returns-then (λ (l : List ℕ). length l ≡ 16) (HasVector (List Delivery))
            (store_bytes copied h.iv) _ (store_bytes-vector copied h.iv size) (λ iv s. s)))

  pub process-HasVector :
      (dangling : ℕ) (ps : List Packet) (h : Handler aes)
      → length h.iv ≡ 16
      → Returns (HasVector (List Delivery)) (process dangling ps h)
  unfolding process
  process-HasVector dangling ps h size =
      Returns->>= (HasVector (List Delivery)) (reassemble (sort ps)) _ (λ reassembled e.
        dispatch-HasVector (front_type (sort ps)) dangling (total_length 0 (sort ps)) reassembled h
          size)

  poll_entries-HasVector :
      (dangling : ℕ → ℕ) (m : Messages) (h : Handler aes)
      → length h.iv ≡ 16
      → Returns KeepsVector (poll_entries dangling m h)
  unfolding poll_entries
  poll_entries-HasVector dangling [] h size = size
  poll_entries-HasVector dangling ((entry, fragments) ∷ rest) h size =
      elim (Bool-cases (is_complete fragments)) [
        | inl done ↦
            rw (done, Returns, poll_entries)
              (Returns-then (HasVector (List Delivery)) KeepsVector
                (process (dangling 0) fragments h) _
                (process-HasVector (dangling 0) fragments h size)
                (λ r kept.
                  Returns-then KeepsVector KeepsVector
                    (poll_entries (λ i. dangling (i + 1)) rest r.0) _
                    (poll_entries-HasVector (λ i. dangling (i + 1)) rest r.0 kept) (λ t k. k)))
        | inr more ↦
            rw (more, Returns, poll_entries)
              (Returns-then KeepsVector KeepsVector (poll_entries (λ i. dangling (i + 1)) rest h) _
                (poll_entries-HasVector (λ i. dangling (i + 1)) rest h size) (λ t k. k))
      ]

HasOther-pending : (id : ℕ) (m : Messages) → All (HasOther id) m → All (HasOther id) (pending m)
unfolding pending
HasOther-pending id [] h = tt
HasOther-pending id ((key, ps) ∷ rest) h = elim (pending_cases key ps rest) [
  | inl done ↦ subst (All (HasOther id)) (sym done) (HasOther-pending id rest h.1)
  | inr more ↦ subst (All (HasOther id)) (sym more) (h.0, HasOther-pending id rest h.1)
]

pending-IsReceived : (m : Messages) → IsReceived m → IsReceived (pending m)
unfolding pending
pending-IsReceived [] h = h
pending-IsReceived ((key, ps) ∷ rest) ((entry_ok, others), (apart, distinct)) =
    let (kept, still) = pending-IsReceived rest (others, distinct) in
    elim (pending_cases key ps rest) [
      | inl done ↦ subst IsReceived (sym done) (kept, still)
      | inr more ↦
          subst IsReceived (sym more)
            ((entry_ok, kept), (HasOther-pending key.id rest apart, still))
    ]

module _ {aes : Aes} where
  pub poll-IsHandler :
      (dangling : ℕ → ℕ) (h last : Handler aes) (out : List Delivery)
      → IsHandler h
      → poll dangling h ≡ some (last, out)
      → IsHandler last
  unfolding poll
  poll-IsHandler dangling h last out ok e = record {
    vector_size =
        Returns_lem (HasVector (List Delivery)) (poll dangling h)
          (Returns-then KeepsVector (HasVector (List Delivery)) (poll_entries dangling h.received h)
            _ (poll_entries-HasVector dangling h.received h ok.vector_size) (λ t k. k))
          e;
    received_ok =
        subst IsReceived (sym (poll-pending dangling h e))
          (pending-IsReceived h.received ok.received_ok);
  }
