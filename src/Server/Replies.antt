-- ===== src/Server/Replies.antt =====
-- `QuicSendServer::Respond` and `Close` of src/quicsend_server.cpp, and the passes of the server's
-- `QuicheSender` over its connections.
pub mod Reachable
use quicsend.Base.{
  ℕ, ℤ, pos, negsuc, ◌+◌, ◌-◌, ◌%◌, ◌^◌, List, Bool, true, false, ◌||◌, Option, none, some, String,
  if◌then◌else◌, lookup, insert,
}
use quicsend.Asio.{Asio}
use quicsend.Quiche.{Quiche, Headers}
use quicsend.Messages.{BodyData, contents, payload_of, response_headers}
use quicsend.Connection.{Connection, World}
use quicsend.Connection.Lifecycle.{close}
use quicsend.Connection.Requests.{send_response}
use quicsend.Connection.Egress
use quicsend.Connection.Egress.{Ending, flush_egress_with}
use quicsend.Sender.{Handle, find_id, tick}
use quicsend.Server.{ServerWorld, server_callbacks}
use quicsend.Server.Dispatch.{Host, QuicSendServer, Handling, handled, thrown}

-- The conversion of an `int64_t` to `uint64_t`.
abbrev pub to_uint64 : ℤ → ℕ
to_uint64 (pos n) = n % 2 ^ 64
to_uint64 (negsuc n) = (2 ^ 64 - 1) - n % 2 ^ 64

module _ (asio : Asio) (quiche : Quiche) where
  abbrev pub world_of :
      Connection asio.Endpoint × quiche.State → Host asio quiche → ServerWorld asio quiche
  world_of (conn, transport) host = record {
    conn = conn;
    transport = transport;
    socket = host.socket;
    app = host.app;
  }

  -- What a method of a connection leaves.
  abbrev pub put_back : ℕ → ServerWorld asio quiche → Host asio quiche → Host asio quiche
  put_back address w host = record {
    app = w.app;
    socket = w.socket;
    links = insert address (w.conn, w.transport) host.links;
  }

  -- A method runs on the connection that a pointer leads to.
  unfoldable pub with_link :
      Handle
      → (ServerWorld asio quiche → ServerWorld asio quiche)
      → Host asio quiche
      → Host asio quiche
  with_link qc method host = elim (lookup qc.address host.links) [
    | none ↦ host
    | some link ↦ put_back qc.address (method (world_of link host)) host
  ]

  -- `Close`.
  unfoldable pub server_close : ℕ → QuicSendServer asio quiche → QuicSendServer asio quiche
  unfolding with_link
  server_close connection_id server = elim (find_id connection_id server.sender) [
    | none ↦ server
    | some qc ↦ record server { host = with_link qc (close asio quiche "exit") server.host }
  ]

  -- The call of `SendResponse`, over `std::to_string` and what becomes of the headers of a response
  -- that is cached, since `Respond` frees their strings.
  unfoldable pub answer :
      (Headers → Headers)
      → (ℤ → String)
      → ℤ
      → ℤ
      → String
      → BodyData
      → ServerWorld asio quiche
      → ServerWorld asio quiche
  answer stale to_string request_id status header_info body w =
      let message = contents body in
      (send_response asio quiche (server_callbacks asio quiche) stale (to_uint64 request_id)
        (response_headers to_string status header_info message) (payload_of message) w).1

  -- `Respond`.
  unfoldable pub respond :
      (Headers → Headers)
      → (ℤ → String)
      → ℕ
      → ℤ
      → ℤ
      → String
      → BodyData
      → QuicSendServer asio quiche
      → QuicSendServer asio quiche
  unfolding with_link answer
  respond stale to_string connection_id request_id status header_info body server =
      if server.closed then server else elim (find_id connection_id server.sender) [
        | none ↦ server
        | some qc ↦ record server {
          host =
              with_link qc (answer stale to_string request_id status header_info body) server.host;
        }
      ]

  -- What a pass of the sending thread works on: the buffer that it holds, and whether an exception
  -- has left the pass, which ends the program.
  pub record Pass : Type 0 where
    pub buffer : Option ℕ
    pub has_thrown : Bool
    pub host : Host asio quiche

  abbrev pub is_threw : Ending → Bool
  is_threw Egress.threw = true
  is_threw _ = false

  -- `IsClosed`.
  unfoldable pub is_closed : Handle → Pass → Bool
  is_closed qc pass = elim (lookup qc.address pass.host.links) [
    | none ↦ false
    | some link ↦ link.0.timeout
  ]

  -- `FlushEgress(buffer)` of a connection.
  unfoldable pub flush_link : Handle → Pass → Bool × Pass
  flush_link qc pass = elim (lookup qc.address pass.host.links) [
    | none ↦ (false, pass)
    | some link ↦
        let (ending, buffer, sent, w) =
          flush_egress_with asio quiche (server_callbacks asio quiche) pass.buffer
            (world_of link pass.host) in
        (
          sent,
          record {
            buffer = buffer;
            has_thrown = pass.has_thrown || is_threw ending;
            host = put_back qc.address w pass.host;
          },
        )
  ]

  -- A pass of `Loop` over the connections of the server, with the buffer that the thread holds, and
  -- what it reads from the nodes that it has erased.
  unfoldable pub server_tick :
      (Handle → Pass → ℕ)
      → Option ℕ
      → QuicSendServer asio quiche
      → Handling (Option ℕ × QuicSendServer asio quiche)
  server_tick reread buffer server =
      let (sender, send_fast, pass) =
        tick reread is_closed flush_link server.sender
          (record { buffer = buffer; has_thrown = false; host = server.host }) in
      if pass.has_thrown
      then thrown
      else handled (pass.buffer, record server { host = pass.host; sender = sender })
