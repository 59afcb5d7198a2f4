-- ===== src/Examples/Gate.antt =====
-- A server that lets a client in, at a concrete input.
use quicsend.Base.{◌≡◌, refl, [], ◌∷◌, true, false, Option, none, some, insert, erase, lookup}
use quicsend.Asio.Concrete.{hosts}
use quicsend.Mailbox.{new_mailbox, post}
use quicsend.Quiche.{headers_event, finished_event}
use quicsend.Connection.Lifecycle.{close, close_h3}
use quicsend.Connection.Streams.{on_header, on_data}
use quicsend.Connection.Events.{
  get_incoming_stream, on_headers, recv_loop, set_incoming, destroy_stream, on_headers_event,
  on_data_event, data_of, on_finished_event, on_event, process_h3_events,
}
use quicsend.Server.{ServerWorld, server_callbacks, server_on_data, event_authorization}
use quicsend.Server.Gate.{Gate, process_h3_events-Gate}
use quicsend.Examples.Feed.{Feed, feed}
use quicsend.Examples.Arrivals.{let_in, two_messages}

abbrev request_feed : Feed
request_feed = record two_messages {
  events =
      (4, headers_event ((":path", "/a") ∷ ("Authorization", "secret") ∷ []))
      ∷ (4, finished_event)
      ∷ (8, headers_event ((":path", "/b") ∷ []))
      ∷ (8, finished_event)
      ∷ [];
}

abbrev server_world : ServerWorld hosts feed
server_world = record {
  conn = record let_in.conn { is_server = true; connected = false };
  transport = request_feed;
  socket = let_in.socket;
  app = record {
    settings = record { authorization = "secret"; port = 4433; key_path = "k"; cert_path = "c" };
    mailbox = new_mailbox;
  };
}

abbrev server_run : Option (ServerWorld hosts feed)
server_run = process_h3_events hosts feed (server_callbacks hosts feed) 5 1 server_world

abbrev served : ServerWorld hosts feed
served = elim server_run [ some w ↦ w | none ↦ server_world ]

server_run-served : server_run ≡ some served
unfolding process_h3_events on_event on_headers_event on_data_event on_finished_event set_incoming
    destroy_stream data_of get_incoming_stream on_headers recv_loop on_header on_data post
    server_on_data event_authorization close close_h3 insert erase lookup
server_run-served = refl

served-connected : served.conn.connected ≡ true
unfolding process_h3_events on_event on_headers_event on_data_event on_finished_event set_incoming
    destroy_stream data_of get_incoming_stream on_headers recv_loop on_header on_data post
    server_on_data event_authorization close close_h3 insert erase lookup
served-connected = refl

process_h3_events-Gate_example : Gate hosts feed [] "secret" served
process_h3_events-Gate_example =
    process_h3_events-Gate hosts feed [] "secret" 5 1 server_world served server_run-served
      (refl, refl)
