-- ===== src/Handler/Invariant/Frames.antt =====
-- What `receive` reads from a frame of bytes.
use hydro_lo_ra_shield.Base.{
  ℕ, zero, suc, ◌≤◌, length-take, All-take, ◌+◌, ◌≡◌, ◌∙◌, List, [], ◌∷◌, arith, All-append,
  All-drop, Bool-cases, inl, inr, length, length-append, length-drop, drop, IsByte, IsBytes,
  load_bytes, store_bytes, leb, leb→le, get_elem?,
}
use hydro_lo_ra_shield.Base.Fault.{Returns, Returns->>=, Returns_lem}
use hydro_lo_ra_shield.Packet.{IsPacket, packet_max_size}
use hydro_lo_ra_shield.Packet.Wire.{Frame, foreign, frame, decode, has_header}

All-get_elem? : (bs : List ℕ) (i : ℕ) → IsBytes bs → Returns IsByte (get_elem? bs i)
All-get_elem? [] i h = tt
All-get_elem? (b ∷ bs) zero h = h.0
All-get_elem? (b ∷ bs) (suc i) h = All-get_elem? bs i h.1

pub load_bytes-IsBytes :
    (off n : ℕ) (mem : List ℕ)
    → IsBytes mem
    → Returns (λ used. (length used ≡ n) × IsBytes used) (load_bytes off n mem)
unfolding load_bytes
load_bytes-IsBytes off n mem h = elim (Bool-cases (leb (off + n) (length mem))) [
  | inl inside ↦ rw inside (
    omega (
      arith,
      length-take n (drop off mem),
      length-drop off mem,
      leb→le (off + n) (length mem) inside,
    ),
    All-take IsByte n (drop off mem) (All-drop IsByte off mem h),
  )
  | inr outside ↦ rw outside tt
]

pub store_bytes-IsBytes :
    (bytes mem : List ℕ)
    → IsBytes bytes
    → IsBytes mem
    → Returns
        (λ l. (length l ≡ length mem) × (length bytes ≤ length mem) × IsBytes l)
        (store_bytes bytes mem)
unfolding store_bytes
store_bytes-IsBytes bytes mem h k = elim (Bool-cases (leb (length bytes) (length mem))) [
  | inl inside ↦
      let fits = leb→le (length bytes) (length mem) inside in
      rw inside (
        omega (
          arith,
          length-append bytes (drop (length bytes) mem),
          length-drop (length bytes) mem,
          fits,
        ),
        fits,
        All-append IsByte bytes (drop (length bytes) mem) h (All-drop IsByte (length bytes) mem k),
      )
  | inr outside ↦ rw outside tt
]

abbrev pub IsFrame : Frame → Type 0
IsFrame foreign = Unit
IsFrame (frame p received_checksum) = IsPacket p

-- What is read from a frame of bytes is within the limits of a packet.
pub decode-IsFrame :
    (fresh : List ℕ) (junk : ℕ) (buffer : List ℕ)
    → length fresh ≡ packet_max_size
    → IsBytes fresh
    → IsBytes buffer
    → Returns IsFrame (decode fresh junk buffer)
unfolding decode
decode-IsFrame fresh junk buffer room stale bytes = elim (Bool-cases (has_header buffer)) [
  | inr other ↦ rw (other, Returns, decode) tt
  | inl ours ↦
      let at : (i : ℕ) → Returns IsByte (get_elem? buffer i) = λ i. All-get_elem? buffer i bytes in
      rw (ours, Returns, decode)
        (Returns->>= IsFrame (get_elem? buffer 2) _ (λ type e2.
          Returns->>= IsFrame (get_elem? buffer 3) _ (λ message_id e3.
            Returns->>= IsFrame (get_elem? buffer 4) _ (λ fragment_id e4.
              Returns->>= IsFrame (get_elem? buffer 5) _ (λ total_fragments e5.
                Returns->>= IsFrame (get_elem? buffer 6) _ (λ lenght e6.
                  Returns->>= IsFrame (load_bytes 7 lenght buffer) _ (λ used e7.
                    Returns->>= IsFrame (store_bytes used fresh) _ (λ payload e8.
                      Returns->>= IsFrame (get_elem? buffer (lenght + 8)) _ (λ received_checksum e9.
                        let loaded =
                          Returns_lem _ (load_bytes 7 lenght buffer)
                            (load_bytes-IsBytes 7 lenght buffer bytes) e7 in
                        let stored =
                          Returns_lem _ (store_bytes used fresh)
                            (store_bytes-IsBytes used fresh loaded.1 stale) e8 in
                        record {
                          type_fits = Returns_lem IsByte (get_elem? buffer 2) (at 2) e2;
                          message_fits = Returns_lem IsByte (get_elem? buffer 3) (at 3) e3;
                          fragment_fits = Returns_lem IsByte (get_elem? buffer 4) (at 4) e4;
                          total_fits = Returns_lem IsByte (get_elem? buffer 5) (at 5) e5;
                          lenght_fits = omega (arith, loaded.0, stored.1, room);
                          payload_size = stored.0 ∙ room;
                          payload_bytes = stored.2;
                        })))))))))
]
