-- ===== src/Client/Connecting.antt =====
-- src/quicsend_client.cpp from the constructor of `QuicSendClient` to its connection:
-- `QuicheConnection::Connect` with its timer, the handler of the resolver, and the datagrams that
-- `QuicheSocket::StartReceive` hands to the client.
pub mod Faults
pub mod Filter
use quicsend.Base.{
  ℕ, List, [], ◌∷◌, Bool, true, false, not, ◌&&◌, ◌||◌, Option, none, some, length, ltb, replicate,
  if◌then◌else◌,
}
use quicsend.ConnectionId.{ConnectionId}
use quicsend.Asio.{Asio}
use quicsend.Quiche.{Quiche}
use quicsend.Sockaddr.{to_sockaddr}
use quicsend.Allocator.{Socket}
use quicsend.Mailbox.{new_mailbox}
use quicsend.Connection.{Connection, World}
use quicsend.Connection.Egress.{threw as egress_threw, flush_egress, flush_egress_with}
use quicsend.Connection.Events.{Outcome, returned, threw, running, on_datagram}
use quicsend.Client.{QuicSendClientSettings, ClientApp, ClientWorld, client_close, client_callbacks}

-- A client. `transport` is `conn_`, and `none` is the null pointer; `added` says that `sender_` has
-- the connection, `connection_timer` is the endpoint with which its handler waits, and `receiving`
-- says that `StartReceive` has been called. `leaked` are the connections of quiche that nothing
-- points to any more and nothing has freed.
pub record QuicSendClient (asio : Asio) (quiche : Quiche) : Type 0 where
  pub conn : Connection asio.Endpoint
  pub transport : Option quiche.State
  pub socket : Socket asio.Endpoint
  pub app : ClientApp asio.Endpoint
  pub resolved_endpoint : asio.Endpoint
  pub added : Bool
  pub connection_timer : Option asio.Endpoint
  pub receiving : Bool
  pub leaked : List quiche.State

-- What a call comes to: it is done; an exception leaves it; quiche is given a null pointer; or the
-- fuel of its loops is used up.
pub data Result (C : Type 0) : Type 0 where
  done : C → Result C
  thrown null_pointer unfinished : Result C

-- One arrival at the socket.
pub record Arrival (Endpoint : Type 0) : Type 0 where
  pub failed : Bool
  pub bytes : List ℕ
  pub sender_endpoint : Endpoint

-- The connection as `QuicheConnection` and `Initialize` make it. Its endpoint is that of the default
-- constructor.
abbrev pub new_connection : {Endpoint : Type 0} → Endpoint → Connection Endpoint
new_connection endpoint = record {
  is_server = false;
  assigned_id = 0;
  dcid = record { id = replicate 16 0; length = 0 };
  http3 = false;
  connected = false;
  quiche_timer = none;
  timeout = false;
  timer_set = false;
  peer_endpoint = endpoint;
  incoming_streams_by_id = [];
  outgoing_streams_by_id = [];
  highest_processed_stream_id = 0;
  goaway_sent = false;
  response_cache = [];
}

module _ (asio : Asio) (quiche : Quiche) where
  abbrev Client : Type 0
  Client = QuicSendClient asio quiche

  -- The constructor, with the certificate that `LoadPEMCertAsDER` has read.
  unfoldable pub new_client :
      QuicSendClientSettings → List ℕ → asio.Endpoint → Socket asio.Endpoint → Client
  new_client settings cert_der endpoint socket = record {
    conn = new_connection endpoint;
    transport = none;
    socket = socket;
    app = record {
      settings = settings;
      cert_der = cert_der;
      closed = false;
      mailbox = new_mailbox;
    };
    resolved_endpoint = endpoint;
    added = false;
    connection_timer = none;
    receiving = false;
    leaked = [];
  }

  -- What comes next, unless the call did not end.
  abbrev pub after : Result Client → (Client → Result Client) → Result Client
  after r next = elim r [
    | done c ↦ next c
    | thrown ↦ thrown
    | null_pointer ↦ null_pointer
    | unfinished ↦ unfinished
  ]

  -- What the methods of the connection have changed.
  abbrev pub from_world : Client → ClientWorld asio quiche → Client
  from_world c w = record c {
    conn = w.conn;
    transport = some w.transport;
    socket = w.socket;
    app = w.app;
  }

  abbrev pub to_world : Client → quiche.State → ClientWorld asio quiche
  to_world c transport = record {
    conn = c.conn;
    transport = transport;
    socket = c.socket;
    app = c.app;
  }

  -- A method of the connection that hands `conn_` to quiche.
  unfoldable pub with_conn :
      (ClientWorld asio quiche → Outcome (ClientWorld asio quiche)) → Client → Result Client
  with_conn method c = elim c.transport [
    | none ↦ null_pointer
    | some transport ↦ elim (method (to_world c transport)) [
      | returned w ↦ done (from_world c w)
      | threw w ↦ thrown
      | running ↦ unfinished
    ]
  ]

  -- `Close`.
  abbrev pub close_client : Client → Client
  close_client c = record c { app = record c.app { closed = true } }

  -- The pointer that `Connect` overwrites.
  abbrev pub dropped : Option quiche.State → List quiche.State → List quiche.State
  dropped none leaked = leaked
  dropped (some transport) leaked = transport ∷ leaked

  -- What `Connect` makes of the result of `quiche_connect`.
  unfoldable pub connected : asio.Endpoint → Option quiche.State → Client → Bool × Client
  connected server_endpoint none c = (
    false,
    record c {
      conn = record c.conn { peer_endpoint = server_endpoint };
      transport = none;
      leaked = dropped c.transport c.leaked;
    },
  )
  connected server_endpoint (some transport) c = (
    true,
    record c {
      conn = record c.conn { peer_endpoint = server_endpoint };
      transport = some transport;
      connection_timer = some server_endpoint;
      leaked = dropped c.transport c.leaked;
    },
  )

  -- `QuicheConnection::Connect` with the id that `Randomize` draws; `none` is an exception.
  unfoldable pub connect : ConnectionId → asio.Endpoint → Client → Option (Bool × Client)
  unfolding connected
  connect scid server_endpoint c = elim (to_sockaddr asio c.socket.local_endpoint) [
    | none ↦ none
    | some local ↦ elim (to_sockaddr asio server_endpoint) [
      | none ↦ none
      | some peer ↦ some (connected server_endpoint (quiche.connect scid local peer) c)
    ]
  ]

  -- The handler of `connection_timer_`; `ec` says that the wait was broken off.
  unfoldable pub on_connection_timer : Bool → ConnectionId → asio.Endpoint → Client → Result Client
  unfolding connect
  on_connection_timer ec scid server_endpoint c =
      let c' : Client = record c { connection_timer = none } in
      if ec then done c' else elim c.transport [
        | none ↦ null_pointer
        | some transport ↦
            if quiche.conn_is_established transport
            then done c'
            else elim (connect scid server_endpoint c') [
              | none ↦ thrown
              | some (ok, c'') ↦ done c''
            ]
      ]

  -- `FlushEgress()` on the connection.
  abbrev flush_own : ClientWorld asio quiche → Outcome (ClientWorld asio quiche)
  flush_own w =
      let w' = (flush_egress asio quiche (client_callbacks asio quiche) w).1 in
      let ending = (flush_egress_with asio quiche (client_callbacks asio quiche) none w).0 in
      elim ending [ egress_threw ↦ threw w' | _ ↦ returned w' ]

  -- The handler of the resolver up to `sender_->Add`.
  unfoldable pub on_resolved : asio.Endpoint → Client → Client
  on_resolved endpoint c = record c { resolved_endpoint = endpoint; added = true }

  -- The rest of it.
  unfoldable pub start : ConnectionId → asio.Endpoint → Client → Result Client
  unfolding connect with_conn
  start scid endpoint c = elim (connect scid endpoint c) [
    | none ↦ thrown
    | some (ok, c') ↦
        if ok then with_conn flush_own (record c' { receiving = true }) else done (close_client c')
  ]

  -- The handler of the resolver where it found nothing.
  abbrev pub on_unresolved : Client → Client
  on_unresolved c = close_client c

  -- What a pass of the sending thread does with the connection of the client: the buffer of the
  -- thread goes in and comes back.
  unfoldable pub pass_over : Option ℕ → Client → Result (Option ℕ × Client)
  pass_over buffer c =
      if not c.added
      then done (buffer, c)
      else if c.conn.timeout
      then done (buffer, record c { added = false })
      else elim c.transport [
        | none ↦ null_pointer
        | some transport ↦
            let (ending, buffer', sent, w) =
              flush_egress_with asio quiche (client_callbacks asio quiche) buffer
                (to_world c transport) in
            elim ending [ egress_threw ↦ thrown | _ ↦ done (buffer', from_world c w) ]
      ]

  module _ (same : asio.Endpoint → asio.Endpoint → Bool) (fuel inner : ℕ) where
    -- The datagram callback.
    unfoldable pub client_on_datagram : List ℕ → asio.Endpoint → Client → Result Client
    unfolding with_conn
    client_on_datagram bytes peer_endpoint c =
        if not (same peer_endpoint c.resolved_endpoint)
        then done c
        else with_conn
            (on_datagram asio quiche (client_callbacks asio quiche) fuel inner bytes peer_endpoint)
            c

    -- The handler of `StartReceive`, which starts the next receive in any case.
    unfoldable pub on_receive : Arrival asio.Endpoint → Client → Result Client
    unfolding client_on_datagram
    on_receive arrival c =
        if not arrival.failed && ltb 0 (length arrival.bytes)
        then client_on_datagram arrival.bytes arrival.sender_endpoint c
        else done c

    -- The handlers of a sequence of arrivals: none starts once the I/O context is stopped.
    unfoldable pub receive_all : List (Arrival asio.Endpoint) → Client → Result Client
    unfolding on_receive
    receive_all [] c = done c
    receive_all (arrival ∷ rest) c =
        if c.app.closed then done c else after (on_receive arrival c) (receive_all rest)
