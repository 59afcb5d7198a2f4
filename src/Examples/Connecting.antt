-- ===== src/Examples/Connecting.antt =====
-- The client on its way to a connection, at concrete inputs.
use quicsend.Base.{
  ℕ, ◌≡◌, refl, ◌≢◌, ◌+◌, List, [], ◌∷◌, Bool, true, false, none, some, length, replicate,
}
use quicsend.ConnectionId.{ConnectionId}
use quicsend.Asio.Concrete.{Host, alice, bob, carol, hosts}
use quicsend.Allocator.{Socket}
use quicsend.Quiche.{Quiche}
use quicsend.Sockaddr.{to_sockaddr, sockaddr_in, htons}
use quicsend.Client.{QuicSendClientSettings}
use quicsend.Client.Connecting.{
  QuicSendClient, null_pointer, Arrival, new_client, on_resolved, pass_over, connect, connected,
  receive_all,
}
use quicsend.Client.Connecting.Filter.{only_from, receive_all-only_from}
use quicsend.Client.Connecting.Faults.{
  pass_over-on_resolved, expires, dialing, StillDialing, expires-leaks,
}
use quicsend.Examples.Transport.{Link, idle_link, link}

abbrev client_settings : QuicSendClientSettings
client_settings = record {
  authorization = "secret";
  host = "example.org";
  port = 4433;
  cert_path = "c";
}

abbrev client_socket : Socket Host
client_socket = record {
  local_endpoint = bob;
  allocator = record { free_buffers = []; free_buffers_count = 0; fresh = 0 };
  payload = λ b. [];
  in_flight = [];
  wire = [];
}

abbrev fresh_client : QuicSendClient hosts link
fresh_client = new_client hosts link client_settings (3 ∷ 5 ∷ []) bob client_socket

abbrev linked_client : QuicSendClient hosts link
linked_client =
    (connected hosts link alice (some idle_link) (on_resolved hosts link alice fresh_client)).1

connects_to_alice :
    connect hosts link
      (record { id = replicate 16 1; length = 16 })
      alice
      (on_resolved hosts link alice fresh_client)
    ≡ some (true, linked_client)
unfolding connect connected new_client on_resolved to_sockaddr
connects_to_alice = refl

pass_over-on_resolved_example :
    (pass_over hosts link none (on_resolved hosts link alice fresh_client) ≡ null_pointer)
    × (pass_over hosts link none linked_client ≢ null_pointer)
pass_over-on_resolved_example =
    pass_over-on_resolved hosts link client_settings (3 ∷ 5 ∷ []) bob alice client_socket none
      (record { id = replicate 16 1; length = 16 }) linked_client connects_to_alice

-- A library whose new connections are not established.
abbrev silent_link : Link
silent_link = record idle_link { alive = false }

abbrev silent : Quiche
silent = record link { connect = λ scid from to. some silent_link }

abbrev drawn : ℕ → ConnectionId
drawn n = record { id = replicate 16 n; length = 16 }

silent_client : QuicSendClient hosts silent
silent_client = new_client hosts silent client_settings (3 ∷ 5 ∷ []) bob client_socket

alice_found : to_sockaddr hosts alice ≡ some (sockaddr_in (htons 4433) 0x7f000001, 16)
unfolding to_sockaddr
alice_found = refl

bob_found :
    to_sockaddr hosts silent_client.socket.local_endpoint
    ≡ some (sockaddr_in (htons 50000) 0xc0a80001, 16)
unfolding to_sockaddr silent_client new_client
bob_found = refl

abbrev two_ids : List ConnectionId
two_ids = drawn 1 ∷ drawn 2 ∷ []

expires-leaks_example :
    StillDialing hosts silent alice
      (length two_ids + length silent_client.leaked)
      (expires hosts silent two_ids (dialing hosts silent silent_client alice silent_link))
expires-leaks_example =
    expires-leaks hosts silent alice (sockaddr_in (htons 50000) 0xc0a80001, 16)
      (sockaddr_in (htons 4433) 0x7f000001, 16) alice_found (λ scid. (silent_link, refl, refl))
      two_ids silent_client silent_link bob_found refl

-- One datagram of the server among others.
abbrev same_host : Host → Host → Bool
same_host alice alice = true
same_host bob bob = true
same_host carol carol = true
same_host _ _ = false

abbrev arrivals : List (Arrival Host)
arrivals =
    record { failed = false; bytes = 1 ∷ []; sender_endpoint = carol }
    ∷ record { failed = false; bytes = 2 ∷ 3 ∷ []; sender_endpoint = alice }
    ∷ record { failed = true; bytes = 4 ∷ []; sender_endpoint = alice }
    ∷ []

abbrev connected_client : QuicSendClient hosts link
connected_client = dialing hosts link (on_resolved hosts link alice fresh_client) alice idle_link

receive_all-only_from_example :
    receive_all hosts link same_host 9 9 arrivals connected_client
    ≡ receive_all hosts link same_host 9 9
        (only_from hosts same_host connected_client.resolved_endpoint arrivals)
        connected_client
receive_all-only_from_example =
    receive_all-only_from hosts link same_host 9 9 arrivals connected_client
