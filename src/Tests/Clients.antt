-- ===== src/Tests/Clients.antt =====
-- The theorems on the socket, the commands of a client and the forwarding, at concrete inputs.
use mathlib.Core.List.{Permᴰ}
use hydro_lo_ra_shield.Base.{ℕ, ◌≡◌, refl, true, false, List, [], ◌∷◌, some, arith, length, inl}
use hydro_lo_ra_shield.Handler.{Handler}
use hydro_lo_ra_shield.Exchange.Arrivals.{accept_all}
use hydro_lo_ra_shield.UnixSocket.{
  Fd, fd, minus_one, failed, Os, Socket, member_defaults, send_data, accept_client,
}
use hydro_lo_ra_shield.UnixSocket.Laws.{write_each, send_each, accept_client_failed}
use hydro_lo_ra_shield.Interface.{Request, preset_word, on_data}
use hydro_lo_ra_shield.Interface.Laws.{IsAsked, on_data-total}
use hydro_lo_ra_shield.Main.{house_keeping}
use hydro_lo_ra_shield.Main.Forward.{message_forwarded}
use hydro_lo_ra_shield.Tests.Toys.{toy_aes, toy_aes_laws}
use hydro_lo_ra_shield.Tests.Texts.{
  blank, blanks_fit, idle, long_text, long_text-IsBytes, long_padded, sent_parts, swapped_parts,
  long_text_padded, long_text_fragments, parts-HaveRoom,
}

-- A system that has one client to accept, or none, and keeps what is written.
pub record ToyWorld : Type 0 where
  pub client : Fd
  pub written : List (List ℕ)

abbrev pub toy_os : Os
toy_os = record {
  World = ToyWorld;
  unlink = λ path w. w;
  socket = λ w. (fd 3, w);
  set_nonblocking = λ f w. w;
  bind = λ f path w. (true, w);
  listen = λ f backlog w. (true, w);
  select = λ f w. (true, w);
  accept = λ f w. (w.client, w);
  write = λ f d w. (some (length d), record w { written = d ∷ w.written });
  read = λ f max_read w. (failed, w);
  close = λ f w. w;
}

abbrev pub waiting : Fd → Socket toy_os
waiting client = record (member_defaults (record { client = client; written = [] })) {
  running = true;
  socket_fd = fd 3;
  max_read = 256;
}

accept_client_failed_example :
    ((accept_client (waiting minus_one)).0 ≡ false)
    × (send_each ((1 ∷ []) ∷ []) (accept_client (waiting minus_one)).1
        ≡ record (waiting minus_one) {
          client_sock_fd = minus_one;
          world = write_each toy_os ((1 ∷ []) ∷ []) (waiting minus_one).world;
        })
accept_client_failed_example =
    accept_client_failed ((1 ∷ []) ∷ []) (waiting minus_one) (waiting minus_one).world refl

on_data-total_example :
    (r : Request) × (on_data (1 ∷ preset_word) ≡ some r) × IsAsked (1 ∷ preset_word) r
on_data-total_example = on_data-total (1 ∷ preset_word)

message_forwarded_example :
    (stored : Handler toy_aes) × (last : Handler toy_aes) × (accept_all swapped_parts idle
      ≡ some stored)
    × (house_keeping (λ i. 0) 100 stored (waiting (fd 7))
        ≡ some (last, send_data long_text (waiting (fd 7))))
    × (last.received ≡ [])
message_forwarded_example =
    message_forwarded toy_aes_laws long_text 120 5 (λ i. 0) 100 (λ _. blank) long_padded sent_parts
      swapped_parts idle (waiting (fd 7)) refl (omega arith) (omega arith) long_text-IsBytes
      (inl (omega arith)) (omega arith) blanks_fit long_text_padded long_text_fragments
      parts-HaveRoom (Permᴰ.swap refl refl) refl refl
