-- ===== src/Server/Dispatch.antt =====
-- `QuicSendServer::OnDatagram` of src/quicsend_server.cpp, with `SendVersionNegotiation`, `SendRetry`
-- and `CreateConnection`, and `QuicheConnection::Initialize` and `Accept`.
pub mod Admission
use quicsend.Base.{
  ℕ, suc, ◌^◌, ◌%◌, ◌==◌, ℤ, is_neg, pos_part, take, List, [], ◌∷◌, length, Bool, true, false, not,
  Option, none, some, String, if◌then◌else◌, lookup, insert,
}
use quicsend.ConnectionId.{ConnectionId}
use quicsend.Asio.{Asio}
use quicsend.Quiche.{Quiche}
use quicsend.Sockaddr.{to_sockaddr}
use quicsend.Token.{Verdict, rejected, accepted, overrun, bad_address_cast, mint_token, read_token}
use quicsend.Allocator.{Socket, allocate, fill, send}
use quicsend.Connection.{Connection, World}
use quicsend.Connection.Events.{Outcome, returned, threw, running, on_datagram}
use quicsend.Sender.{Handle, Sender, new_sender, find_dcid, add}
use quicsend.Server.{ServerApp, ServerWorld, QuicSendServerSettings, construct, server_callbacks}

-- What `quiche_header_info` finds in a packet.
pub record Header : Type 0 where
  pub version : ℕ
  pub scid : ConnectionId
  pub dcid : ConnectionId
  pub token : List ℕ

-- The calls of quiche that work on packets alone: `quiche_header_info`,
-- `quiche_version_is_supported`, `quiche_negotiate_version` and `quiche_retry`, with their results
-- and what they write.
pub record Packets : Type 0 where
  pub header_info : List ℕ → ℤ × Header
  pub version_is_supported : ℕ → Bool
  pub negotiate_version : ConnectionId → ConnectionId → ℤ × List ℕ
  pub retry : ConnectionId → ConnectionId → ConnectionId → List ℕ → ℤ × List ℕ

-- What a datagram comes to: the handler returns, an exception leaves it, it is still in a loop when
-- the fuel is used up, or it has written past an array.
pub data Handling (S : Type 0) : Type 0 where
  handled : S → Handling S
  thrown : Handling S
  looping : Handling S
  undefined_behaviour : Handling S

module _ (asio : Asio) (quiche : Quiche) where
  -- What the connections share, and the memory of each connection under its address.
  pub record Host : Type 0 where
    pub app : ServerApp asio.Endpoint
    pub socket : Socket asio.Endpoint
    pub links : List (ℕ × (Connection asio.Endpoint × quiche.State))

  -- `fresh` is the address that `make_shared` returns next.
  pub record QuicSendServer : Type 0 where
    pub host : Host
    pub sender : Sender
    pub next_assigned_id : ℕ
    pub fresh : ℕ
    pub closed : Bool

module _ (asio : Asio) (quiche : Quiche) where
  -- The server as it is constructed, with its socket.
  unfoldable pub new_server :
      QuicSendServerSettings → Socket asio.Endpoint → QuicSendServer asio quiche
  new_server settings socket = record {
    host = record { app = construct settings; socket = socket; links = [] };
    sender = new_sender;
    next_assigned_id = 0;
    fresh = 0;
    closed = false;
  }

  -- `Send` of a packet that was written into a new buffer; a failure is logged, and the buffer goes.
  unfoldable pub send_packet : ℤ × List ℕ → asio.Endpoint → Host asio quiche → Host asio quiche
  send_packet (written, payload) peer_endpoint host =
      let (b, allocator) = allocate host.socket.allocator in
      let socket = record host.socket { allocator = allocator } in
      if is_neg written then record host { socket = socket } else record host {
        socket = send b peer_endpoint (fill b (take (pos_part written) payload) socket);
      }

  -- `Initialize`, with the members that no setting is for.
  unfoldable pub initialize : ℕ → ConnectionId → Connection asio.Endpoint
  initialize assigned_id dcid = record {
    is_server = true;
    assigned_id = assigned_id;
    dcid = dcid;
    http3 = false;
    connected = false;
    quiche_timer = none;
    timeout = false;
    timer_set = false;
    peer_endpoint = asio.from_v4 0 0;
    incoming_streams_by_id = [];
    outgoing_streams_by_id = [];
    highest_processed_stream_id = 0;
    goaway_sent = false;
    response_cache = [];
  }

  -- `QuicheConnection::Accept`: the outer `none` is an exception, the inner one a null pointer.
  unfoldable pub accept :
      asio.Endpoint → ConnectionId → ConnectionId → Host asio quiche → Option (Option quiche.State)
  accept client_endpoint dcid odcid host = elim (to_sockaddr asio host.socket.local_endpoint) [
    | none ↦ none
    | some from ↦ elim (to_sockaddr asio client_endpoint) [
      | none ↦ none
      | some peer ↦ some (quiche.accept dcid odcid from peer)
    ]
  ]

  -- The number that `CreateConnection` takes, in 64 bits.
  abbrev pub next_id : QuicSendServer asio quiche → ℕ
  next_id server = suc server.next_assigned_id % 2 ^ 64

  -- `CreateConnection` once quiche has made the connection.
  unfoldable pub register :
      ConnectionId → quiche.State → QuicSendServer asio quiche → Handle × QuicSendServer asio quiche
  register dcid transport server =
      let id = next_id server in
      let qc : Handle = record { address = server.fresh; assigned_id = id; dcid = dcid } in
      (
        qc,
        record server {
          host = record server.host {
            links = insert server.fresh (initialize id dcid, transport) server.host.links;
          };
          sender = add qc server.sender;
          next_assigned_id = id;
          fresh = suc server.fresh;
        },
      )

  -- `conn_ptr->OnDatagram`. A pointer in the maps always has its memory.
  unfoldable pub deliver :
      ℕ
      → ℕ
      → List ℕ
      → asio.Endpoint
      → Handle
      → QuicSendServer asio quiche
      → Handling (QuicSendServer asio quiche)
  deliver fuel inner bytes peer_endpoint qc server = elim (lookup qc.address server.host.links) [
    | none ↦ handled server
    | some (conn, transport) ↦
        let w : ServerWorld asio quiche = record {
          conn = conn;
          transport = transport;
          socket = server.host.socket;
          app = server.host.app;
        } in
        elim (on_datagram asio quiche (server_callbacks asio quiche) fuel inner bytes peer_endpoint
          w) [
            | returned w' ↦ handled (record server {
              host = record {
                app = w'.app;
                socket = w'.socket;
                links = insert qc.address (w'.conn, w'.transport) server.host.links;
              };
            })
            | threw w' ↦ thrown
            | running ↦ looping
          ]
  ]

  -- `CreateConnection`, and what `OnDatagram` does with its result.
  unfoldable pub admit :
      ℕ
      → ℕ
      → List ℕ
      → asio.Endpoint
      → ConnectionId
      → ConnectionId
      → QuicSendServer asio quiche
      → Handling (QuicSendServer asio quiche)
  admit fuel inner bytes peer_endpoint dcid odcid server =
      elim (accept peer_endpoint dcid odcid server.host) [
        | none ↦ thrown
        | some none ↦ handled (record server { next_assigned_id = next_id server })
        | some (some transport) ↦
            let (qc, server') = register dcid transport server in
            deliver fuel inner bytes peer_endpoint qc server'
      ]

  module _ (packets : Packets) where
    -- `SendRetry`, with the id that `Randomize` draws.
    unfoldable pub send_retry :
        ConnectionId
        → Header
        → asio.Endpoint
        → QuicSendServer asio quiche
        → Handling (QuicSendServer asio quiche)
    send_retry new_scid header peer_endpoint server =
        elim (mint_token asio header.dcid peer_endpoint) [
          | none ↦ thrown
          | some token ↦
              let packet = packets.retry header.scid header.dcid new_scid token in
              handled (record server { host = send_packet packet peer_endpoint server.host })
        ]

    -- `OnDatagram` for a connection id that is not known. `scratch` is what the memory of `odcid`
    -- holds at first.
    unfoldable pub greet :
        ℕ
        → ℕ
        → ConnectionId
        → ConnectionId
        → List ℕ
        → Header
        → asio.Endpoint
        → QuicSendServer asio quiche
        → Handling (QuicSendServer asio quiche)
    greet fuel inner new_scid scratch bytes header peer_endpoint server =
        if not (packets.version_is_supported header.version)
        then handled (record server {
          host =
              send_packet (packets.negotiate_version header.scid header.dcid) peer_endpoint
                server.host;
        })
        else if length header.token == 0
        then send_retry new_scid header peer_endpoint server
        else elim (read_token asio header.token peer_endpoint scratch) [
          | rejected ↦ handled server
          | accepted odcid ↦ admit fuel inner bytes peer_endpoint header.dcid odcid server
          | overrun ↦ undefined_behaviour
          | bad_address_cast ↦ thrown
        ]

    -- `QuicSendServer::OnDatagram`.
    unfoldable pub server_on_datagram :
        ℕ
        → ℕ
        → ConnectionId
        → ConnectionId
        → List ℕ
        → asio.Endpoint
        → QuicSendServer asio quiche
        → Handling (QuicSendServer asio quiche)
    server_on_datagram fuel inner new_scid scratch bytes peer_endpoint server =
        let (rc, header) = packets.header_info bytes in
        if is_neg rc
        then handled server
        else elim (find_dcid header.dcid server.sender.connections) [
          | some qc ↦ deliver fuel inner bytes peer_endpoint qc server
          | none ↦ greet fuel inner new_scid scratch bytes header peer_endpoint server
        ]
