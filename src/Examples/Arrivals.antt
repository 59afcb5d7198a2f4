-- ===== src/Examples/Arrivals.antt =====
-- Messages that arrive, at concrete inputs.
use quicsend.Base.{
  ◌≡◌, refl, arith, [], ◌∷◌, true, false, Option, none, some, arith, map, negsuc, replicate, insert,
  erase, lookup,
}
use quicsend.Asio.Concrete.{alice, bob, hosts}
use quicsend.Mailbox.{new_mailbox, post}
use quicsend.Connection.Events.Posted.{messages_in}
use quicsend.Quiche.{Quiche, headers_event, data_event, finished_event}
use quicsend.Connection.Streams.{new_incoming_stream, on_header, on_data}
use quicsend.Connection.Events.{
  get_incoming_stream, on_headers, recv_loop, set_incoming, destroy_stream, on_headers_event,
  on_data_event, data_of, on_finished_event, on_event, process_h3_events,
}
use quicsend.Connection.Events.Delivery.{Assembled, process_h3_events-Assembled}
use quicsend.Connection.Events.Termination.{recv_loop-stuck}
use quicsend.Client.{ClientWorld, client_callbacks, client_on_data}
use quicsend.Client.Reception.{client-Delivers}
use quicsend.Examples.Feed.{Feed, feed, feed-EventLaws}

-- Two messages whose pieces come in turns.
abbrev pub two_messages : Feed
two_messages = record {
  events =
      (4, headers_event ((":status", "200") ∷ []))
      ∷ (4, data_event)
      ∷ (8, headers_event ((":status", "404") ∷ []))
      ∷ (8, data_event)
      ∷ (8, finished_event)
      ∷ (4, data_event)
      ∷ (4, finished_event)
      ∷ [];
  bodies = (4, 1 ∷ 2 ∷ []) ∷ (8, 9 ∷ []) ∷ (4, 3 ∷ []) ∷ [];
  arrivals = record { pieces = λ k. []; messages = [] };
}

abbrev pub let_in : ClientWorld hosts feed
let_in = record {
  conn = record {
    is_server = false;
    assigned_id = 0;
    dcid = record { id = replicate 16 0; length = 16 };
    http3 = true;
    connected = true;
    quiche_timer = none;
    timeout = false;
    timer_set = false;
    peer_endpoint = bob;
    incoming_streams_by_id = [];
    outgoing_streams_by_id = [];
    highest_processed_stream_id = 0;
    goaway_sent = false;
    response_cache = [];
  };
  transport = two_messages;
  socket = record {
    local_endpoint = alice;
    allocator = record { free_buffers = []; free_buffers_count = 0; fresh = 0 };
    payload = λ b. [];
    in_flight = [];
    wire = [];
  };
  app = record {
    settings = record {
      authorization = "secret";
      host = "example.org";
      port = 4433;
      cert_path = "c";
    };
    cert_der = [];
    closed = false;
    mailbox = new_mailbox;
  };
}

let_in-Assembled : Assembled (client-Delivers hosts feed feed-EventLaws) let_in
unfolding feed-EventLaws lookup
let_in-Assembled = record { waits = λ k. refl; had = refl; is_open = refl }

abbrev run_events : Option (ClientWorld hosts feed)
run_events = process_h3_events hosts feed (client_callbacks hosts feed) 8 5 let_in

abbrev processed : ClientWorld hosts feed
processed = elim run_events [ some w ↦ w | none ↦ let_in ]

run_events-processed : run_events ≡ some processed
unfolding process_h3_events on_event on_headers_event on_data_event on_finished_event set_incoming
    destroy_stream data_of get_incoming_stream on_headers recv_loop on_header on_data post
    client_on_data insert erase lookup
run_events-processed = refl

process_h3_events-Assembled_example :
    Assembled (client-Delivers hosts feed feed-EventLaws) processed
process_h3_events-Assembled_example =
    process_h3_events-Assembled (client-Delivers hosts feed feed-EventLaws) 8 5 let_in processed
      run_events-processed let_in-Assembled

-- The application has had both messages, each whole.
posted_bodies :
    map (λ stream. stream.buffer) (messages_in processed.app.mailbox.events)
    ≡ (9 ∷ []) ∷ (1 ∷ 2 ∷ 3 ∷ []) ∷ []
unfolding process_h3_events on_event on_headers_event on_data_event on_finished_event set_incoming
    destroy_stream data_of get_incoming_stream on_headers recv_loop on_header on_data post
    client_on_data insert erase lookup
posted_bodies = refl

-- A library that refuses every read with a code of its own.
abbrev broken : Quiche
broken = record feed { h3_recv_body = λ h id capacity s. (negsuc 15, [], s) }

recv_loop-stuck_example : recv_loop broken true 1000 4 (new_incoming_stream 4) two_messages ≡ none
recv_loop-stuck_example =
    recv_loop-stuck broken true 1000 4 (new_incoming_stream 4) two_messages (λ t. (refl, refl))
