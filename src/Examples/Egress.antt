-- ===== src/Examples/Egress.antt =====
-- `FlushEgress` at a concrete input.
use quicsend.Base.{ℕ, ◌≡◌, ◌≢◌, [], ◌∷◌, true, false, none, arith, replicate}
use quicsend.Asio.Concrete.{Host, alice, bob, hosts}
use quicsend.Allocator.{Socket, complete}
use quicsend.Allocator.Ownership.{Owned, complete-Owned}
use quicsend.Connection.{World, Callbacks}
use quicsend.Connection.Egress.{starved, drain, flush_egress_with}
use quicsend.Connection.Egress.Termination.{flush_egress_with-ends}
use quicsend.Connection.Egress.Buffers.{and_of, drain-Owned}
use quicsend.Connection.Egress.Packets.{carried, sent_after, packets, drain-sends}
use quicsend.Examples.Transport.{idle_link, link, link-SendLaws}

abbrev silent : Callbacks hosts link ℕ
silent = record { on_connect = λ id peer w. w; on_timeout = λ id w. w; on_data = λ event w. w }

-- One buffer is in flight, one is free, and 2 is the next that is made.
abbrev busy_socket : Socket Host
busy_socket = record {
  local_endpoint = bob;
  allocator = record { free_buffers = 1 ∷ []; free_buffers_count = 1; fresh = 2 };
  payload = λ b. 5 ∷ [];
  in_flight = (0, alice) ∷ [];
  wire = [];
}

abbrev world : World hosts link ℕ
world = record {
  conn = record {
    is_server = true;
    assigned_id = 1;
    dcid = record { id = replicate 16 0; length = 16 };
    http3 = true;
    connected = true;
    quiche_timer = none;
    timeout = false;
    timer_set = false;
    peer_endpoint = alice;
    incoming_streams_by_id = [];
    outgoing_streams_by_id = [];
    highest_processed_stream_id = 0;
    goaway_sent = false;
    response_cache = [];
  };
  transport = idle_link;
  socket = busy_socket;
  app = 0;
}

flush_egress_with-ends_example : (flush_egress_with hosts link silent none world).0 ≢ starved
flush_egress_with-ends_example = flush_egress_with-ends hosts link link-SendLaws silent none world

busy_socket-Owned : Owned [] busy_socket
busy_socket-Owned = record { once = λ b. ground arith; unmade = λ b l. ground arith }

drain-Owned_example :
    Owned
      (and_of (drain hosts link silent none world).1 [])
      (drain hosts link silent none world).3.socket
drain-Owned_example = drain-Owned hosts link [] silent none world busy_socket-Owned

drain-sends_example :
    let w' = (drain hosts link silent none world).3 in
    carried w'.socket.payload w'.socket.in_flight
    ≡ sent_after (packets hosts link 2 idle_link) ((5 ∷ [], alice) ∷ [])
drain-sends_example = drain-sends hosts link [] silent none world busy_socket-Owned

complete-Owned_example : Owned [] (complete 0 busy_socket)
complete-Owned_example = complete-Owned 0 [] busy_socket busy_socket-Owned
