-- ===== src/Examples/Api.antt =====
-- The C interface at concrete inputs.
use quicsend.Base.{
  ℕ, ◌<◌, ◌^◌, ◌≡◌, refl, ◌↔◌, ℤ, pos, List, [], ◌∷◌, ◌++◌, true, false, Option, none, some, String,
  codes,
}
use quicsend.Asio.Concrete.{Host, alice, hosts}
use quicsend.Mailbox.{Mailbox, poll}
use quicsend.Messages.{Contents, contents, payload_of}
use quicsend.Connection.{Event, timeout_event, data_event}
use quicsend.Connection.Streams.{new_incoming_stream}
use quicsend.Client.{QuicSendClientSettings}
use quicsend.Server.{QuicSendServerSettings}
use quicsend.Api.{
  buffer, body_data, PythonQuicSendClientSettings, PythonQuicSendServerSettings,
  quicsend_client_create, quicsend_server_create, Python, client_side, route_event, quicsend_poll,
  create_python_view_object,
}
use quicsend.Api.Routing.{all_calls, quicsend_poll_delivers}
use quicsend.Api.Bodies.{payload-body_data_iff}

abbrev address_text : Host → List ℕ
address_text h = codes "127.0.0.1"

abbrev atoi : String → ℤ
atoi s = pos 200

abbrev silence : Python
silence = record { calls = []; none_released = 0 }

-- A timeout, and a response without a body.
abbrev waiting : Mailbox (Event Host)
waiting = record {
  terminated = false;
  events =
      record {
        type = timeout_event;
        peer_endpoint = none;
        connection_assigned_id = 1;
        stream = none;
      }
      ∷ record {
        type = data_event;
        peer_endpoint = some alice;
        connection_assigned_id = 1;
        stream = some (new_incoming_stream 4);
      }
      ∷ [];
}

abbrev emptied : Mailbox (Event Host)
emptied = record { terminated = false; events = [] }

abbrev routed : Python
routed = record {
  calls = all_calls hosts address_text atoi client_side waiting.events;
  none_released = 1;
}

polled :
    quicsend_poll hosts address_text atoi client_side true (pos 100) waiting silence
    ≡ some (1, emptied, routed)
unfolding quicsend_poll poll route_event create_python_view_object
polled = refl

quicsend_poll_delivers_example :
    (routed.calls ++ [] ≡ all_calls hosts address_text atoi client_side waiting.events)
    × (◌≡◌ {A = ℕ} 1 1)
quicsend_poll_delivers_example =
    quicsend_poll_delivers hosts address_text atoi client_side true (pos 100) waiting emptied
      silence routed 1 polled

payload-body_data_iff_example :
    (payload_of
        (contents (body_data (record { content_type = none; object = buffer (7 ∷ 8 ∷ []) })))
      ≡ 7 ∷ 8 ∷ [])
    ↔ (2 < 2 ^ 31)
payload-body_data_iff_example = payload-body_data_iff none 7 (8 ∷ [])

abbrev client_settings : PythonQuicSendClientSettings
client_settings = record {
  auth_token = some "secret";
  host = some "example.org";
  cert_path = some "c";
  port = 4433;
}

abbrev server_settings : PythonQuicSendServerSettings
server_settings = record {
  auth_token = some "secret";
  cert_path = some "c";
  key_path = some "k";
  port = 4433;
}

abbrev cs : QuicSendClientSettings
cs = record { authorization = "Bearer secret"; host = "example.org"; port = 4433; cert_path = "c" }

abbrev ss : QuicSendServerSettings
ss = record { authorization = "Bearer secret"; port = 4433; key_path = "k"; cert_path = "c" }

client_created : quicsend_client_create client_settings ≡ some cs
unfolding quicsend_client_create
client_created = refl

server_created : quicsend_server_create server_settings ≡ some ss
unfolding quicsend_server_create
server_created = refl

abbrev digits : ℤ → String
digits n = "2"

abbrev message : Option Contents
message = some (record { content_type = "text/plain"; length = pos 2; payload = 104 ∷ 105 ∷ [] })
