-- ===== src/Tests/Texts.antt =====
-- A text of two fragments: the text, its padding, its packets and their arrivals.
use hydro_lo_ra_shield.Base.{
  ℕ, ◌-◌, ◌≡◌, refl, true, List, [], ◌∷◌, ◌++◌, Option, some, none, arith, replicate, load_bytes,
  store_bytes, All-replicate, All-append, IsByte, IsBytes, u8, All,
}
use hydro_lo_ra_shield.Packet.{Packet, IsPacket}
use hydro_lo_ra_shield.Packet.Checksum.{compute_checksum}
use hydro_lo_ra_shield.Padding.{padded_size, pad}
use hydro_lo_ra_shield.Handler.{Handler}
use hydro_lo_ra_shield.Handler.Send.{fragment, fragments, raw_fragments}
use hydro_lo_ra_shield.Handler.Send.Fragments.{IsStale}
use hydro_lo_ra_shield.Exchange.Arrivals.{Arrival, HasRoom}
use hydro_lo_ra_shield.Tests.Toys.{toy_aes, complement}

abbrev pub blank : List ℕ
blank = replicate 119 0

pub blank-IsBytes : IsBytes blank
blank-IsBytes = All-replicate IsByte 119 0 (omega arith)

pub blanks_fit : IsStale (λ _. blank)
blanks_fit i = (refl, blank-IsBytes)

abbrev pub idle : Handler toy_aes
idle = record {
  iv = replicate 16 0;
  aes_ctx = ([], []);
  msg_callback = true;
  messages = [];
  received = [];
}

-- 120 bytes: two fragments.
abbrev pub long_text : List ℕ
long_text = replicate 120 b'A'

pub long_text-IsBytes : IsBytes long_text
long_text-IsBytes = All-replicate IsByte 120 b'A' (omega arith)

abbrev pub long_padded : List ℕ
long_padded = long_text ++ replicate 8 8

abbrev pub made : Option (List Packet) → List Packet
made none = []
made (some ps) = ps

abbrev pub arrive : Packet → Arrival
arrive p = record {
  packet = p;
  gap = 0;
  rest = replicate (119 - p.lenght) 0;
  fresh = blank;
  junk = 0;
}

-- The two fragments, with the arrays written out.
abbrev pub first_part : Packet
first_part = record {
  type = 0;
  message_id = 5;
  fragment_id = 0;
  total_fragments = 2;
  lenght = 119;
  payload = complement (replicate 119 b'A');
  checksum = 173;
}

abbrev pub second_part : Packet
second_part = record {
  type = 0;
  message_id = 5;
  fragment_id = 1;
  total_fragments = 2;
  lenght = 9;
  payload = complement (b'A' ∷ replicate 8 8) ++ replicate 110 0;
  checksum = 137;
}

pub first-IsPacket : IsPacket first_part
first-IsPacket = record {
  type_fits = omega arith;
  message_fits = omega arith;
  fragment_fits = omega arith;
  total_fits = omega arith;
  lenght_fits = omega arith;
  payload_size = refl;
  payload_bytes = All-replicate IsByte 119 190 (omega arith);
}

pub second-IsPacket : IsPacket second_part
second-IsPacket = record {
  type_fits = omega arith;
  message_fits = omega arith;
  fragment_fits = omega arith;
  total_fits = omega arith;
  lenght_fits = omega arith;
  payload_size = refl;
  payload_bytes = (
    omega arith,
    All-append IsByte (replicate 8 247) (replicate 110 0) (All-replicate IsByte 8 247 (omega arith))
        (All-replicate IsByte 110 0 (omega arith)),
  );
}

abbrev pub sent_parts : List Arrival
sent_parts = arrive first_part ∷ arrive second_part ∷ []

abbrev pub swapped_parts : List Arrival
swapped_parts = arrive second_part ∷ arrive first_part ∷ []

pub long_text_padded : pad long_text 120 ≡ some long_padded
unfolding pad load_bytes store_bytes
long_text_padded = refl

pub long_text_fragments :
    fragments 0 5
      (u8 (raw_fragments (padded_size 120)))
      (complement long_padded)
      (padded_size 120)
      (padded_size 120)
      0
      0
      (λ _. blank)
    ≡ some (first_part ∷ second_part ∷ [])
unfolding fragments fragment raw_fragments padded_size compute_checksum load_bytes store_bytes
long_text_fragments = refl

pub parts-HaveRoom : All HasRoom sent_parts
parts-HaveRoom = ((refl, blank-IsBytes), ((refl, blank-IsBytes), tt))
