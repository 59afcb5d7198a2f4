-- ===== src/Connection.antt =====
-- `QuicheConnection` of include/quicsend_quiche.hpp: its members, the streams and responses that it
-- keeps, and the world in which its methods run. Each method holds the recursive mutex, so it is one
-- step; the children of this module are the methods.
pub mod Streams
pub mod Transfers
pub mod Responses
pub mod Egress
pub mod Lifecycle
pub mod Requests
pub mod Events
pub mod TimeoutOnce
use quicsend.Base.{ℕ, List, Bool, Option, String}
use quicsend.ConnectionId.{ConnectionId}
use quicsend.Asio.{Asio}
use quicsend.Quiche.{Quiche, Headers}
use quicsend.Allocator.{Socket}
use Streams.{IncomingStream, OutgoingStream, CachedResponse}

pub record Connection (Endpoint : Type 0) : Type 0 where
  -- `settings_`, without the callbacks.
  pub is_server : Bool
  pub assigned_id : ℕ
  pub dcid : ConnectionId
  -- `http3_` is not null.
  pub http3 : Bool
  pub connected : Bool
  -- The delay that `quiche_timer_` waits for.
  pub quiche_timer : Option ℕ
  pub timeout : Bool
  pub timer_set : Bool
  pub peer_endpoint : Endpoint
  pub incoming_streams_by_id : List (ℕ × IncomingStream)
  pub outgoing_streams_by_id : List (ℕ × OutgoingStream)
  pub highest_processed_stream_id : ℕ
  pub goaway_sent : Bool
  pub response_cache : List CachedResponse

-- A method runs on its connection, on quiche's state of it (`conn_`), on the socket that all
-- connections share, and on the application `app`, which the callbacks change.
pub record World (asio : Asio) (quiche : Quiche) (A : Type 0) : Type 0 where
  pub conn : Connection asio.Endpoint
  pub transport : quiche.State
  pub socket : Socket asio.Endpoint
  pub app : A

-- `QuicheMailbox::Event`.
pub data EventType : Type 0 where
  invalid connect timeout_event data_event : EventType

pub record Event (Endpoint : Type 0) : Type 0 where
  pub type : EventType
  pub peer_endpoint : Option Endpoint
  pub connection_assigned_id : ℕ
  pub stream : Option IncomingStream

-- The callbacks of `QCSettings`.
pub record Callbacks (asio : Asio) (quiche : Quiche) (A : Type 0) : Type 0 where
  pub on_connect : ℕ → asio.Endpoint → World asio quiche A → World asio quiche A
  pub on_timeout : ℕ → World asio quiche A → World asio quiche A
  pub on_data : Event asio.Endpoint → World asio quiche A → World asio quiche A
