-- ===== src/Exchange/Arrivals.antt =====
-- The frames of one message reaching `receive` one after the other.
use hydro_lo_ra_shield.Base.{
  ℕ, suc, ◌≡◌, refl, ap, ap₂, ◌∙◌, List, [], ◌∷◌, ◌++◌, map, Option, some, arith, length, drop, All,
  take-append_length, length-append, length-drop, All-append, IsByte, IsBytes, All-take, All-drop,
}
use hydro_lo_ra_shield.Base.Fault.{◌>>=◌}
use hydro_lo_ra_shield.Packet.{Packet, IsPacket, content, packet_max_size}
use hydro_lo_ra_shield.Packet.Checksum.{compute_checksum}
use hydro_lo_ra_shield.Packet.Wire.Laws.{bytes_of, stored, length-content}
use hydro_lo_ra_shield.Entries.{push_back, push_all}
use hydro_lo_ra_shield.Aes.{Aes}
use hydro_lo_ra_shield.Handler.{Handler}
use hydro_lo_ra_shield.Handler.Send.Fragments.{join, Run}
use hydro_lo_ra_shield.Handler.Sort.Laws.{Rising}
use hydro_lo_ra_shield.Handler.Receive.{incoming, accept}
use hydro_lo_ra_shield.Handler.Receive.Laws.{accept-bytes_of}

-- A packet on its way, with what its reception meets: the unwritten byte of the frame, the bytes
-- of the buffer behind the frame, and the memory that `malloc` returns.
pub record Arrival : Type 0 where
  pub packet : Packet
  pub gap : ℕ
  pub rest : List ℕ
  pub fresh : List ℕ
  pub junk : ℕ

abbrev pub kept : Arrival → Packet
kept a = stored a.fresh a.junk a.packet

abbrev pub packets : List Arrival → List Packet
packets [] = []
packets (a ∷ more) = a.packet ∷ packets more

abbrev pub kepts : List Arrival → List Packet
kepts = map kept

-- What `malloc` returns has the payload's size, and bytes in it.
abbrev pub HasRoom : Arrival → Type 0
HasRoom a = (length a.fresh ≡ packet_max_size) × IsBytes a.fresh

-- A frame as `send` makes it, of the message `id`.
pub record IsSent (id : ℕ) (a : Arrival) : Type 0 where
  pub fits : IsPacket a.packet
  pub id_is : a.packet.message_id ≡ id
  pub checksum_is : a.packet.checksum ≡ compute_checksum a.packet a.packet.lenght
  pub room : length a.fresh ≡ packet_max_size

module _ {aes : Aes} where
  -- `receive` on each frame in turn.
  abbrev pub accept_all : List Arrival → Handler aes → Option (Handler aes)
  accept_all [] h = some h
  accept_all (a ∷ more) h =
      accept a.fresh a.junk (bytes_of a.gap a.packet ++ a.rest) h >>= accept_all more

  pub accept_all-push_all :
      (id : ℕ) (more : List Arrival) (h : Handler aes)
      → All (IsSent id) more
      → accept_all more h
        ≡ some (record h { received = push_all (incoming id) (kepts more) h.received })
  unfolding push_all
  accept_all-push_all id [] h sent = refl
  accept_all-push_all id (a ∷ more) h sent =
      ap (λ r. r >>= accept_all more)
        (accept-bytes_of h a.gap sent.0.fits a.rest a.fresh a.junk sent.0.room sent.0.checksum_is)
      ∙ accept_all-push_all id more _ sent.1
      ∙ ap
          (λ k. some (record h {
            received =
                push_all (incoming id) (kepts more) (push_back (incoming k) (kept a) h.received);
          }))
          sent.0.id_is

pub content-kept : (a : Arrival) → IsPacket a.packet → content (kept a) ≡ content a.packet
content-kept a fits =
    take-append_length a.packet.lenght (content a.packet) (drop a.packet.lenght a.fresh)
      (length-content a.gap fits)

pub kept-IsPacket : (a : Arrival) → IsPacket a.packet → HasRoom a → IsPacket (kept a)
kept-IsPacket a fits room = record {
  type_fits = fits.type_fits;
  message_fits = fits.message_fits;
  fragment_fits = fits.fragment_fits;
  total_fits = fits.total_fits;
  lenght_fits = fits.lenght_fits;
  payload_size = omega (
    arith,
    length-content a.gap fits,
    length-append (content a.packet) (drop a.packet.lenght a.fresh),
    length-drop a.packet.lenght a.fresh,
    fits.lenght_fits,
  );
  payload_bytes =
      All-append IsByte (content a.packet) (drop a.packet.lenght a.fresh)
        (All-take IsByte a.packet.lenght a.packet.payload fits.payload_bytes)
        (All-drop IsByte a.packet.lenght a.fresh room.1);
}

module _ (type id total : ℕ) where
  pub join-kepts :
      (idx : ℕ) (more : List Arrival)
      → Run type id total idx (packets more)
      → join (kepts more) ≡ join (packets more)
  join-kepts idx [] run = refl
  join-kepts idx (a ∷ more) run =
      ap₂ ◌++◌ (content-kept a run.0.fits) (join-kepts (suc idx) more run.1)

  pub kepts-Rising :
      (idx : ℕ) (more : List Arrival)
      → Run type id total idx (packets more)
      → Rising idx (kepts more)
  kepts-Rising idx [] run = tt
  kepts-Rising idx (a ∷ more) run = (run.0.index_is, kepts-Rising (suc idx) more run.1)

  pub kepts-IsPacket :
      (idx : ℕ) (more : List Arrival)
      → Run type id total idx (packets more)
      → All HasRoom more
      → All IsPacket (kepts more)
  kepts-IsPacket idx [] run room = tt
  kepts-IsPacket idx (a ∷ more) run room =
      (kept-IsPacket a run.0.fits room.0, kepts-IsPacket (suc idx) more run.1 room.1)

  pub Run-IsSent :
      (idx : ℕ) (more : List Arrival)
      → Run type id total idx (packets more)
      → All HasRoom more
      → All (IsSent id) more
  Run-IsSent idx [] run room = tt
  Run-IsSent idx (a ∷ more) run room = (
    record {
      fits = run.0.fits;
      id_is = run.0.id_is;
      checksum_is = run.0.checksum_is;
      room = room.0.0;
    },
    Run-IsSent (suc idx) more run.1 room.1,
  )
