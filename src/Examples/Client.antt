-- ===== src/Examples/Client.antt =====
-- The client and the headers of its messages at concrete inputs.
use quicsend.Base.{
  map, ℤ, pos, ◌≡◌, refl, [], ◌∷◌, ◌++◌, ◌||◌, true, false, Option, none, some, String, bytes_eq,
  str_eq, if◌then◌else◌, replicate,
}
use quicsend.Asio.Concrete.{alice, bob, hosts}
use quicsend.Mailbox.{new_mailbox}
use quicsend.Connection.Egress.{flush_egress_with}
use quicsend.Connection.TimeoutOnce.{here, next, flush, Reach-Once}
use quicsend.Messages.{Contents, request_headers}
use quicsend.Quiche.Arrivals.{fields, content}
use quicsend.Connection.Events.Assembly.{message}
use quicsend.Messages.RoundTrip.{FieldNames, carried}
use quicsend.Connection.Events.RoundTrip.{message-request_headers}
use quicsend.Client.{ClientWorld, client_callbacks, client_on_connect, connect_event}
use quicsend.Client.Pinning.{client_reports, client_on_connect-pinned, client-Counted}
use quicsend.Examples.Transport.{idle_link, link}

abbrev digits : ℤ → String
digits n = "200"

abbrev message_body : Option Contents
message_body =
    some (record { content_type = "text/plain"; length = pos 2; payload = 104 ∷ 105 ∷ [] })

-- A spelling of the names in lower case.
abbrev names_in_lower : FieldNames
names_in_lower = record {
  lower = λ name. if str_eq name "Authorization" then "authorization" else name;
  keeps_method = refl;
  keeps_scheme = refl;
  keeps_authority = refl;
  keeps_path = refl;
  keeps_agent = refl;
  lowers_authorization = refl;
  keeps_info = refl;
  keeps_type = refl;
  keeps_length = refl;
}

message-request_headers_example :
    let headers =
      carried names_in_lower.lower
        (request_headers digits "secret" "example.org" "/a" "info" message_body) in
    let stream = message (4, fields headers ∷ map content ((104 ∷ []) ∷ (105 ∷ []) ∷ [])) in
    (stream.id ≡ 4)
    × (stream.method ≡ "POST")
    × (stream.path ≡ "/a")
    × (stream.authorization ≡ "")
    × (stream.header_info ≡ "info")
    × (stream.content_type ≡ "text/plain")
    × (stream.buffer ≡ 104 ∷ 105 ∷ [])
message-request_headers_example =
    message-request_headers names_in_lower digits 4 "secret" "example.org" "/a" "info" message_body
      ((104 ∷ []) ∷ (105 ∷ []) ∷ [])

-- A client whose certificate is that of the concrete transport, which is closed.
client_world : ClientWorld hosts link
client_world = record {
  conn = record {
    is_server = false;
    assigned_id = 0;
    dcid = record { id = replicate 16 0; length = 16 };
    http3 = true;
    connected = false;
    quiche_timer = none;
    timeout = false;
    timer_set = false;
    peer_endpoint = bob;
    incoming_streams_by_id = [];
    outgoing_streams_by_id = [];
    highest_processed_stream_id = 0;
    goaway_sent = false;
    response_cache = [];
  };
  transport = record idle_link { closed = true };
  socket = record {
    local_endpoint = alice;
    allocator = record { free_buffers = []; free_buffers_count = 0; fresh = 0 };
    payload = λ b. [];
    in_flight = [];
    wire = [];
  };
  app = record {
    settings = record {
      authorization = "secret";
      host = "example.org";
      port = 4433;
      cert_path = "c";
    };
    cert_der = 3 ∷ 5 ∷ [];
    closed = false;
    mailbox = new_mailbox;
  };
}

client_on_connect-pinned_example :
    let matches = bytes_eq (3 ∷ 5 ∷ []) (3 ∷ 5 ∷ []) in
    let w' = client_on_connect hosts link 0 bob client_world in
    (w'.conn.connected ≡ (matches || false))
    × (w'.transport ≡ (
        if matches
        then client_world.transport
        else link.conn_close "Peer certificate does not match" client_world.transport))
    × (w'.app.mailbox.events ≡ [] ++ (if matches then connect_event hosts link 0 bob ∷ [] else []))
unfolding client_world
client_on_connect-pinned_example = client_on_connect-pinned hosts link 0 bob client_world

-- The client's callbacks are among those of which a timeout is reported once.
client_reports_once :
    client_reports
      (flush_egress_with hosts link (client_callbacks hosts link) none client_world).3.app
    ≡ (if (flush_egress_with hosts link
          (client_callbacks hosts link)
          none
          client_world).3.conn.timeout
        then 1
        else 0)
unfolding client_world
client_reports_once =
    Reach-Once (client_callbacks hosts link) client_reports (client-Counted hosts link)
      {w = client_world} refl refl (next here (flush none))
