-- ===== src/Handler/Send/Fragments.antt =====
-- What the fragmentation loop of `send` produces.
use hydro_lo_ra_shield.Base.{
  ℕ, zero, suc, ◌+◌, ◌-◌, ◌/◌, ◌≤◌, ◌<◌, ◌≡◌, refl, sym, ap, ap₂, ◌∙◌, false, List, [], ◌∷◌, ◌++◌,
  some, arith, ltb, ◌==◌, if◌then◌else◌, Bool-cases, ==→eq, ==→ne, inl, inr, length, take, drop,
  load_bytes_in, store_bytes_in, length-take, length-drop, length-append, take-append_length,
  All-append, All-take, All-drop, IsByte, IsBytes, u8, take-append-drop, drop_beyond, ltb→lt,
  ltb→ge,
}
use mathlib.Core.Path.{subst}
use hydro_lo_ra_shield.Packet.{Packet, IsPacket, content, packet_max_size}
use hydro_lo_ra_shield.Packet.Checksum.{compute_checksum, compute_checksum-record}
use hydro_lo_ra_shield.Handler.Send.{fragment, fragments}

-- The bytes that a list of packets carries.
abbrev pub join : List Packet → List ℕ
join [] = []
join (p ∷ ps) = content p ++ join ps

-- A fragment as `send` makes it: within its limits, numbered, and with its checksum.
pub record IsFragment (type id total idx : ℕ) (p : Packet) : Type 0 where
  pub fits : IsPacket p
  pub type_is : p.type ≡ type
  pub id_is : p.message_id ≡ id
  pub total_is : p.total_fragments ≡ total
  pub index_is : p.fragment_id ≡ idx
  pub checksum_is : p.checksum ≡ compute_checksum p p.lenght

-- Fragments that are numbered from `idx` on.
abbrev pub Run : ℕ → ℕ → ℕ → ℕ → List Packet → Type 0
Run type id total idx [] = Unit
Run type id total idx (p ∷ ps) = IsFragment type id total idx p × Run type id total (suc idx) ps

abbrev pub IsStale : (ℕ → List ℕ) → Type 0
IsStale stale = (i : ℕ) → (length (stale i) ≡ packet_max_size) × IsBytes (stale i)

drop-drop : (n m : ℕ) (xs : List ℕ) → drop m (drop n xs) ≡ drop (n + m) xs
drop-drop zero m xs = ap (λ k. drop k xs) (omega arith)
drop-drop (suc n) m [] = drop_nil m ∙ sym (drop_nil (suc n + m))
  where
    drop_nil : (k : ℕ) → drop {A = ℕ} k [] ≡ []
    drop_nil zero = refl
    drop_nil (suc k) = refl
drop-drop (suc n) m (x ∷ xs) = drop-drop n m xs ∙ ap (λ k. drop k (x ∷ xs)) unary
  where
    unary : suc (n + m) ≡ suc n + m
    unary = omega arith

module _ (type id total : ℕ) (padded : List ℕ) (type_fits : type < 256) (id_fits : id < 256)
    (total_fits : total < 256) (bytes : IsBytes padded) where
  -- One round copies its slice and numbers the packet.
  fragment_lem :
      (len offset idx : ℕ) (stale : List ℕ)
      → len ≤ packet_max_size
      → offset + len ≤ length padded
      → idx < 256
      → length stale ≡ packet_max_size
      → IsBytes stale
      → (p : Packet) × (fragment type id total padded len offset idx stale ≡ some p)
        × IsFragment type id total idx p
        × (content p ≡ take len (drop offset padded))
  unfolding fragment
  fragment_lem len offset idx stale small inside idx_fits room stale_bytes = (
    made,
    rw
        (
          load_bytes_in offset len padded inside,
          store_bytes_in (take len (drop offset padded)) stale (omega (arith, slice)),
        )
        refl,
    record {
      fits = record {
        type_fits = type_fits;
        message_fits = id_fits;
        fragment_fits = idx_fits;
        total_fits = total_fits;
        lenght_fits = omega arith;
        payload_size = omega (
          arith,
          slice,
          length-append (take len (drop offset padded))
              (drop (length (take len (drop offset padded))) stale),
          length-drop (length (take len (drop offset padded))) stale,
        );
        payload_bytes =
            All-append IsByte _ _ (All-take IsByte len _ (All-drop IsByte offset padded bytes))
              (All-drop IsByte _ stale stale_bytes);
      };
      type_is = refl;
      id_is = refl;
      total_is = refl;
      index_is = refl;
      checksum_is =
          ap (compute_checksum bare) (sym same_len)
          ∙ sym (compute_checksum-record bare (compute_checksum bare len) (u8 len));
    },
    ap (λ k. take k made.payload) same_len ∙ take-append_length len _ _ slice,
  )
    where
      slice : length (take len (drop offset padded)) ≡ len
      slice = omega (arith, length-take len (drop offset padded), length-drop offset padded)

      same_len : u8 len ≡ len
      same_len = omega arith

      bare : Packet
      bare = record {
        type = type;
        message_id = id;
        fragment_id = idx;
        total_fragments = total;
        lenght = u8 len;
        payload =
            take len (drop offset padded) ++ drop (length (take len (drop offset padded))) stale;
        checksum = 0;
      }

      made : Packet
      made = record bare { checksum = compute_checksum bare len }

  abbrev Result : ℕ → ℕ → ℕ → ℕ → (ℕ → List ℕ) → Type 0
  Result rounds remaining offset idx stale =
      (ps : List Packet) × (fragments type id total padded rounds remaining offset idx stale
        ≡ some ps)
      × Run type id total idx ps
      × (join ps ≡ drop offset padded)
      × (length ps ≡ (remaining + 118) / 119)

  finished :
      (rounds remaining offset idx : ℕ) (stale : ℕ → List ℕ)
      → remaining ≡ 0
      → length padded ≡ offset + remaining
      → Result rounds remaining offset idx stale
  unfolding fragments
  finished zero remaining offset idx stale e len =
      ([], rw e refl, tt, sym (drop_beyond offset padded (omega arith)), omega arith)
  finished (suc rounds) remaining offset idx stale e len =
      ([], rw e refl, tt, sym (drop_beyond offset padded (omega arith)), omega arith)

  -- The length of the next fragment.
  abbrev packet_len : ℕ → ℕ
  packet_len remaining = if ltb packet_max_size remaining then packet_max_size else remaining

  packet_len_bounds :
      (remaining : ℕ)
      → 0 < remaining
      → (packet_len remaining ≤ 119)
        × (0 < packet_len remaining)
        × (packet_len remaining ≤ remaining)
        × ((remaining - packet_len remaining + 118) / 119 + 1 ≡ (remaining + 118) / 119)
  packet_len_bounds remaining h = elim (Bool-cases (ltb packet_max_size remaining)) [
    | inl e ↦ rw e (omega (arith, ltb→lt packet_max_size remaining e))
    | inr e ↦ rw e (omega (arith, ltb→ge packet_max_size remaining e))
  ]

  fragments_step :
      (rounds remaining offset idx : ℕ) (stale : ℕ → List ℕ) {p : Packet} {ps : List Packet}
      → (remaining == 0) ≡ false
      → fragment type id total padded (packet_len remaining) offset idx (stale 0) ≡ some p
      → fragments type id total padded rounds
          (remaining - packet_len remaining)
          (offset + packet_len remaining)
          (u8 (idx + 1))
          (λ i. stale (i + 1))
        ≡ some ps
      → fragments type id total padded (suc rounds) remaining offset idx stale ≡ some (p ∷ ps)
  unfolding fragments
  fragments_step rounds remaining offset idx stale more one next =
      rw (more, fragments) (rw (one, next) refl)

  -- The loop returns, its fragments are numbered from `idx` on, carry what was left of the
  -- buffer, and are as many as the bytes need.
  pub fragments_lem :
      (rounds remaining offset idx : ℕ) (stale : ℕ → List ℕ)
      → remaining ≤ rounds
      → length padded ≡ offset + remaining
      → idx + (remaining + 118) / 119 ≤ 255
      → IsStale stale
      → Result rounds remaining offset idx stale
  fragments_lem zero remaining offset idx stale enough len few room =
      finished zero remaining offset idx stale (omega arith) len
  fragments_lem (suc rounds) remaining offset idx stale enough len few room =
      elim (Bool-cases (remaining == 0)) [
        | inl e ↦ finished (suc rounds) remaining offset idx stale (==→eq remaining 0 e) len
        | inr e ↦
            let left : 0 < remaining = omega (arith, ==→ne remaining 0 e) in
            let n = packet_len remaining in
            let b = packet_len_bounds remaining left in
            let (p, made, numbered, carried) =
              fragment_lem n offset idx (stale 0) b.0 (omega arith) (omega arith) (room 0).0
                (room 0).1 in
            let (ps, next, run, joined, count) =
              fragments_lem rounds (remaining - n) (offset + n) (u8 (idx + 1)) (λ i. stale (i + 1))
                (omega arith) (omega arith) (omega arith) (λ i. room (i + 1)) in
            (
              p ∷ ps,
              fragments_step rounds remaining offset idx stale e made next,
              (numbered, subst (λ k. Run type id total k ps) (next_index idx (omega arith)) run),
              ap₂ ◌++◌ carried (joined ∙ sym (drop-drop offset n padded))
                  ∙ take-append-drop n (drop offset padded),
              omega arith,
            )
      ]
    where
      next_index : (k : ℕ) → k < 255 → u8 (k + 1) ≡ suc k
      next_index k h = omega arith
