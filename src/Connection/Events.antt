-- ===== src/Connection/Events.antt =====
-- `QuicheConnection::ProcessH3Events`, `GetIncomingStream`, `DestroyStream` and `OnDatagram`.
pub mod Assembly
pub mod Delivery
pub mod Termination
pub mod Posted
pub mod RoundTrip
pub mod Datagrams
use quicsend.Base.{
  ℕ, zero, suc, ◌*◌, List, [], ◌∷◌, Bool, true, false, not, ◌&&◌, ◌||◌, Option, none, some, pos,
  pos_part, is_neg, int_eq, take, if◌then◌else◌, lookup, insert, erase,
}
use quicsend.Asio.{Asio}
use quicsend.Quiche.{
  Quiche, Headers, H3Event, headers_event, data_event, finished_event, reset_event,
  priority_update_event, goaway_event, unknown_event, shutdown_read, shutdown_write,
}
use quicsend.Sockaddr.{Sockaddr, to_sockaddr}
use quicsend.Connection.{Connection, World, Callbacks, Event}
use quicsend.Connection
use quicsend.Connection.Streams.{IncomingStream, new_incoming_stream, on_header, on_data}
use quicsend.Connection.Egress.{threw as egress_threw, flush_egress, flush_egress_with}

abbrev pub max_datagram_recv_size : ℕ
max_datagram_recv_size = 1400 * 2

-- What a method with a loop of unbounded length comes to: it returns; it throws; or it is still in
-- the loop when the fuel is used up.
pub data Outcome (W : Type 0) : Type 0 where
  returned : W → Outcome W
  threw : W → Outcome W
  running : Outcome W

-- `GetIncomingStream` with `create`.
unfoldable pub get_incoming_stream : ℕ → List (ℕ × IncomingStream) → IncomingStream
get_incoming_stream stream_id streams = elim (lookup stream_id streams) [
  | some stream ↦ stream
  | none ↦ new_incoming_stream stream_id
]

-- The walk of `quiche_h3_event_for_each_header` with `OnHeader`.
unfoldable pub on_headers : Headers → IncomingStream → IncomingStream
on_headers [] stream = stream
on_headers ((name, value) ∷ rest) stream = on_headers rest (on_header name value stream)

module _ (quiche : Quiche) (http3 : Bool) where
  open quiche use {State, h3_recv_body, err_done}

  -- The inner loop of the DATA event; `none` is a loop that has not ended. A failure is logged, and
  -- the loop goes on.
  unfoldable pub recv_loop : ℕ → ℕ → IncomingStream → State → Option (IncomingStream × State)
  recv_loop zero stream_id stream s = none
  recv_loop (suc fuel) stream_id stream s =
      let (len, buffer, s') = h3_recv_body http3 stream_id max_datagram_recv_size s in
      let stream' = on_data (take (pos_part len) buffer) stream in
      let more = recv_loop fuel stream_id stream' s' in
      let again = recv_loop fuel stream_id stream s' in
      if int_eq len err_done || int_eq len (pos 0)
      then some (stream, s')
      else if is_neg len
      then again
      else more

module _ (asio : Asio) (quiche : Quiche) {A : Type 0} (callbacks : Callbacks asio quiche A) where
  open quiche use {
    h3_conn_poll, h3_conn_new_with_transport, conn_stream_shutdown, conn_close, conn_recv,
    conn_is_established, conn_is_closed, err_done,
  }

  unfoldable pub set_incoming :
      List (ℕ × IncomingStream) → World asio quiche A → World asio quiche A
  set_incoming streams w = record w { conn = record w.conn { incoming_streams_by_id = streams } }

  -- `DestroyStream`.
  unfoldable pub destroy_stream : ℕ → World asio quiche A → World asio quiche A
  destroy_stream stream_id w = record w {
    conn = record w.conn {
      incoming_streams_by_id = erase stream_id w.conn.incoming_streams_by_id;
      outgoing_streams_by_id = erase stream_id w.conn.outgoing_streams_by_id;
    };
    transport =
        conn_stream_shutdown stream_id shutdown_write
          (conn_stream_shutdown stream_id shutdown_read w.transport);
  }

  -- HEADERS.
  unfoldable pub on_headers_event : ℕ → Headers → World asio quiche A → World asio quiche A
  unfolding set_incoming
  on_headers_event stream_id headers w =
      let stream = get_incoming_stream stream_id w.conn.incoming_streams_by_id in
      set_incoming (insert stream_id (on_headers headers stream) w.conn.incoming_streams_by_id) w

  -- DATA.
  unfoldable pub on_data_event : ℕ → ℕ → World asio quiche A → Option (World asio quiche A)
  unfolding set_incoming
  on_data_event fuel stream_id w =
      let stream = get_incoming_stream stream_id w.conn.incoming_streams_by_id in
      elim (recv_loop quiche w.conn.http3 fuel stream_id stream w.transport) [
        | none ↦ none
        | some (stream', t) ↦ some (
            set_incoming (insert stream_id stream' w.conn.incoming_streams_by_id)
              (record w { transport = t }))
      ]

  unfoldable pub data_of : IncomingStream → World asio quiche A → Event asio.Endpoint
  data_of stream w = record {
    type = Connection.data_event;
    peer_endpoint = some w.conn.peer_endpoint;
    connection_assigned_id = w.conn.assigned_id;
    stream = some stream;
  }

  -- FINISHED: the event goes to the application, and a client is done with the stream.
  unfoldable pub on_finished_event : ℕ → World asio quiche A → World asio quiche A
  unfolding set_incoming data_of
  on_finished_event stream_id w = elim (lookup stream_id w.conn.incoming_streams_by_id) [
    | none ↦ w
    | some stream ↦
        let w' = set_incoming (erase stream_id w.conn.incoming_streams_by_id) w in
        let w'' = callbacks.on_data (data_of stream w) w' in
        if w''.conn.is_server then w'' else destroy_stream stream_id w''
  ]

  -- The `switch` over the type of an event.
  unfoldable pub on_event : ℕ → ℕ → H3Event → World asio quiche A → Option (World asio quiche A)
  unfolding on_headers_event on_data_event on_finished_event
  on_event fuel stream_id (headers_event headers) w = some (on_headers_event stream_id headers w)
  on_event fuel stream_id data_event w = on_data_event fuel stream_id w
  on_event fuel stream_id finished_event w = some (on_finished_event stream_id w)
  on_event fuel stream_id reset_event w = some (destroy_stream stream_id w)
  on_event fuel stream_id priority_update_event w = some w
  on_event fuel stream_id goaway_event w =
      some (record w { transport = conn_close "Received GOAWAY" w.transport })
  on_event fuel stream_id unknown_event w = some w

  -- `ProcessH3Events`. The first number is the fuel of this loop, and the second that of the loops
  -- inside it.
  unfoldable pub process_h3_events : ℕ → ℕ → World asio quiche A → Option (World asio quiche A)
  process_h3_events zero inner w = none
  process_h3_events (suc fuel) inner w =
      let (stream_id, event, t) = h3_conn_poll w.conn.http3 w.transport in
      let w' : World asio quiche A = record w { transport = t } in
      let rest = λ (u : World asio quiche A). process_h3_events fuel inner u in
      if int_eq stream_id err_done || is_neg stream_id
      then some w'
      else elim (on_event inner (pos_part stream_id) event w') [ none ↦ none | some u ↦ rest u ]

  -- The creation of the HTTP/3 connection once the handshake is done; `false` where it fails.
  unfoldable pub open_h3 : World asio quiche A → Bool × World asio quiche A
  open_h3 w =
      if w.conn.http3
      then (true, w)
      else let (created, t) = h3_conn_new_with_transport w.transport in
        let w' : World asio quiche A = record w {
          conn = record w.conn { http3 = created };
          transport = t;
        } in
        if created
        then (true, callbacks.on_connect w'.conn.assigned_id w'.conn.peer_endpoint w')
        else (false, w')

  unfoldable pub report_timeout : World asio quiche A → World asio quiche A
  report_timeout w =
      let w' = callbacks.on_timeout w.conn.assigned_id w in
      record w' { conn = record w'.conn { timeout = true } }

  -- The end of `OnDatagram`: a closed connection is reported once, and any other is flushed.
  -- An exception of `sockaddr_to_endpoint` passes through.
  unfoldable pub settle : World asio quiche A → Outcome (World asio quiche A)
  unfolding report_timeout
  settle w =
      let w' = (flush_egress asio quiche callbacks w).1 in
      if not w.conn.timeout && conn_is_closed w.transport
      then returned (report_timeout w)
      else elim (flush_egress_with asio quiche callbacks none w).0 [
        | egress_threw ↦ threw w'
        | _ ↦ returned w'
      ]

  -- What `OnDatagram` does once quiche has taken the datagram.
  unfoldable pub received : ℕ → ℕ → World asio quiche A → Outcome (World asio quiche A)
  unfolding settle open_h3
  received fuel inner w =
      if conn_is_established w.transport
      then (let (opened, w') = open_h3 w in
          if opened
          then (elim (process_h3_events fuel inner w') [ none ↦ running | some u ↦ settle u ])
          else returned w')
      else settle w

  unfoldable pub recv :
      ℕ
      → ℕ
      → List ℕ
      → Sockaddr × ℕ
      → Sockaddr × ℕ
      → World asio quiche A
      → Outcome (World asio quiche A)
  unfolding received
  recv fuel inner bytes from to w =
      let (done, t) = conn_recv bytes from to w.transport in
      let w' : World asio quiche A = record w { transport = t } in
      if is_neg done then returned w' else received fuel inner w'

  -- `OnDatagram`, with the fuel of the two kinds of loop in it.
  unfoldable pub on_datagram :
      ℕ → ℕ → List ℕ → asio.Endpoint → World asio quiche A → Outcome (World asio quiche A)
  unfolding recv
  on_datagram fuel inner bytes peer_endpoint w =
      let w' : World asio quiche A = record w {
        conn = record w.conn { peer_endpoint = peer_endpoint };
      } in
      elim (to_sockaddr asio peer_endpoint) [
        | none ↦ threw w'
        | some from ↦ elim (to_sockaddr asio w.socket.local_endpoint) [
          | none ↦ threw w'
          | some to ↦ recv fuel inner bytes from to w'
        ]
      ]
