-- ===== src/Client.antt =====
-- src/quicsend_client.cpp: the callbacks that the constructor of `QuicSendClient` gives to its
-- connection, `Close`, and `Request`; the constructor itself is in Connecting.
pub mod Pinning
pub mod Reception
pub mod Connecting
use quicsend.Base.{
  ℕ, ℤ, negsuc, List, [], Bool, true, false, Option, none, some, String, if◌then◌else◌,
}
use quicsend.Asio.{Asio}
use quicsend.Quiche.{Quiche, Headers}
use quicsend.Mailbox.{Mailbox, post}
use quicsend.Messages.{BodyData, contents, payload_of, request_headers}
use quicsend.Connection.{World, Callbacks, Event, connect, timeout_event}
use quicsend.Connection.Lifecycle.{compare_peer_certificate}
use quicsend.Connection.Requests.{send_request}

pub record QuicSendClientSettings : Type 0 where
  pub authorization : String
  pub host : String
  pub port : ℕ
  pub cert_path : String

-- The members of `QuicSendClient` that the callbacks and the calls of the application work on.
pub record ClientApp (Endpoint : Type 0) : Type 0 where
  pub settings : QuicSendClientSettings
  pub cert_der : List ℕ
  pub closed : Bool
  pub mailbox : Mailbox (Event Endpoint)

module _ (asio : Asio) (quiche : Quiche) where
  abbrev pub ClientWorld : Type 0
  ClientWorld = World asio quiche (ClientApp asio.Endpoint)

  abbrev pub post_event : Event asio.Endpoint → ClientWorld → ClientWorld
  post_event event w = record w { app = record w.app { mailbox = post event w.app.mailbox } }

  -- `Close`: to stop the I/O context again changes nothing.
  unfoldable pub client_close : ClientWorld → ClientWorld
  client_close w = record w { app = record w.app { closed = true } }

  abbrev pub connect_event : ℕ → asio.Endpoint → Event asio.Endpoint
  connect_event connection_id peer_endpoint = record {
    type = connect;
    peer_endpoint = some peer_endpoint;
    connection_assigned_id = connection_id;
    stream = none;
  }

  -- The lambda `on_timeout`.
  unfoldable pub client_on_timeout : ℕ → ClientWorld → ClientWorld
  unfolding client_close
  client_on_timeout connection_id w =
      post_event
        (record {
          type = timeout_event;
          peer_endpoint = none;
          connection_assigned_id = connection_id;
          stream = none;
        })
        (client_close w)

  -- The lambda `on_connect`.
  unfoldable pub client_on_connect : ℕ → asio.Endpoint → ClientWorld → ClientWorld
  client_on_connect connection_id peer_endpoint w =
      let (matches, w') = compare_peer_certificate asio quiche w.app.cert_der w in
      if matches then post_event (connect_event connection_id peer_endpoint) w' else w'

  -- The lambda `on_data`.
  unfoldable pub client_on_data : Event asio.Endpoint → ClientWorld → ClientWorld
  client_on_data event w = if w.conn.connected then post_event event w else w

  abbrev pub client_callbacks : Callbacks asio quiche (ClientApp asio.Endpoint)
  client_callbacks = record {
    on_connect = client_on_connect;
    on_timeout = client_on_timeout;
    on_data = client_on_data;
  }

  -- `Request`, with what other threads do while `SendRequest` sleeps.
  unfoldable pub request :
      (ℤ → String)
      → List (ClientWorld → ClientWorld)
      → String
      → String
      → BodyData
      → ClientWorld
      → Option ℤ × ClientWorld
  request to_string others path header_info body w =
      let settings = w.app.settings in
      let message = contents body in
      if w.app.closed
      then (some (negsuc 0), w)
      else send_request asio quiche client_callbacks others
          (request_headers to_string settings.authorization settings.host path header_info message)
          (payload_of message) w
