-- ===== src/Examples/Servers.antt =====
-- Mailboxes, connections and servers at concrete inputs.
use quicsend.Base.{
  ℕ, ◌≡◌, refl, ◌↔◌, List, [], ◌∷◌, ◌++◌, true, false, some, none, if◌then◌else◌, replicate, str_eq,
  String, pos,
}
use quicsend.Asio.Concrete.{Host, alice, bob, hosts}
use quicsend.Allocator.{Socket}
use quicsend.Mailbox.{new_mailbox}
use quicsend.Mailbox.Delivery.{Call, posts, polls, run, run_delivers}
use quicsend.Connection.{Connection, Event, data_event}
use quicsend.Connection.Streams.{IncomingStream, new_incoming_stream}
use quicsend.Connection.TimeoutOnce.{here, next, flush, Reach-Once}
use quicsend.Connection.Egress.{flush_egress_with}
use quicsend.Server.{
  QuicSendServerSettings, ServerWorld, construct, connect_event, server_on_data, server_callbacks,
}
use quicsend.Server.Authorization.{
  server_on_data-first, construct-authorization, server-Counted, timeout_reports,
}
use quicsend.Examples.Transport.{idle_link, link}

abbrev calls : List (Call ℕ)
calls = posts 1 ∷ posts 2 ∷ polls (pos 100) ∷ posts 3 ∷ []

run_delivers_example :
    (run calls (new_mailbox, [])).1 ++ (run calls (new_mailbox, [])).0.events ≡ 1 ∷ 2 ∷ 3 ∷ []
run_delivers_example = run_delivers calls new_mailbox []

abbrev up : Connection Host
up = record {
  is_server = true;
  assigned_id = 1;
  dcid = record { id = replicate 16 0; length = 16 };
  http3 = true;
  connected = false;
  quiche_timer = none;
  timeout = false;
  timer_set = false;
  peer_endpoint = alice;
  incoming_streams_by_id = [];
  outgoing_streams_by_id = [];
  highest_processed_stream_id = 0;
  goaway_sent = false;
  response_cache = [];
}

abbrev idle_socket : Socket Host
idle_socket = record {
  local_endpoint = bob;
  allocator = record { free_buffers = []; free_buffers_count = 0; fresh = 0 };
  payload = λ b. [];
  in_flight = [];
  wire = [];
}

abbrev strict : QuicSendServerSettings
strict = record { authorization = "Bearer token"; port = 4433; key_path = "k"; cert_path = "c" }

fresh_world : ServerWorld hosts link
fresh_world = record {
  conn = up;
  transport = record idle_link { closed = true };
  socket = idle_socket;
  app = construct strict;
}

Reach-Once_example :
    timeout_reports
      (flush_egress_with hosts link (server_callbacks hosts link) none fresh_world).3.app
    ≡ (if (flush_egress_with hosts link
          (server_callbacks hosts link)
          none
          fresh_world).3.conn.timeout
        then 1
        else 0)
unfolding fresh_world construct
Reach-Once_example =
    Reach-Once (server_callbacks hosts link) timeout_reports (server-Counted hosts link)
      {w = fresh_world} refl refl (next here (flush none))

abbrev bearer : IncomingStream
bearer = record (new_incoming_stream 4) { authorization = "Bearer token" }

abbrev request : Event Host
request = record {
  type = data_event;
  peer_endpoint = some alice;
  connection_assigned_id = 1;
  stream = some bearer;
}

server_on_data-first_example :
    let w' = server_on_data hosts link request fresh_world in
    let passes = str_eq "Bearer token" fresh_world.app.settings.authorization in
    (w'.conn.connected ≡ passes)
    × (w'.app.mailbox.events
        ≡ fresh_world.app.mailbox.events
          ++ (if passes then connect_event hosts link ∷ request ∷ [] else []))
unfolding fresh_world
server_on_data-first_example = server_on_data-first hosts link request bearer fresh_world refl refl

construct-authorization_example :
    ((server_on_data hosts link request fresh_world).conn.connected ≡ true)
    ↔ (◌≡◌ {A = String} "Bearer token" "")
unfolding fresh_world
construct-authorization_example =
    construct-authorization hosts link strict request bearer fresh_world refl refl refl
