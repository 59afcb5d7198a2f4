-- ===== src/Server.antt =====
-- src/quicsend_server.cpp: the callbacks that `CreateConnection` gives to a connection, and the part
-- of `QuicSendServer` that they work on.
pub mod Authorization
pub mod Dispatch
pub mod Replies
pub mod Reception
pub mod Gate
use quicsend.Base.{
  ℕ, zero, List, [], Bool, true, false, not, Option, none, some, String, str_eq, if◌then◌else◌,
}
use quicsend.Asio.{Asio}
use quicsend.Quiche.{Quiche}
use quicsend.Mailbox.{Mailbox, new_mailbox, post}
use quicsend.Connection.{World, Callbacks, Event, EventType, connect, timeout_event, data_event}
use quicsend.Connection.Lifecycle.{close}

pub record QuicSendServerSettings : Type 0 where
  pub authorization : String
  pub port : ℕ
  pub key_path : String
  pub cert_path : String

-- The members `settings_` and `mailbox_`.
pub record ServerApp (Endpoint : Type 0) : Type 0 where
  pub settings : QuicSendServerSettings
  pub mailbox : Mailbox (Event Endpoint)

abbrev pub default_settings : QuicSendServerSettings
default_settings = record { authorization = ""; port = 0; key_path = ""; cert_path = "" }

-- What the constructor leaves in these members. It reads the port and the paths from its argument
-- for the socket, and does not assign `settings_`.
unfoldable pub construct : {Endpoint : Type 0} → QuicSendServerSettings → ServerApp Endpoint
construct settings = record { settings = default_settings; mailbox = new_mailbox }

module _ (asio : Asio) (quiche : Quiche) where
  abbrev pub ServerWorld : Type 0
  ServerWorld = World asio quiche (ServerApp asio.Endpoint)

  abbrev pub post_event : Event asio.Endpoint → ServerWorld → ServerWorld
  post_event event w = record w { app = record w.app { mailbox = post event w.app.mailbox } }

  -- The lambda `on_timeout`.
  unfoldable pub server_on_timeout : ℕ → ServerWorld → ServerWorld
  server_on_timeout connection_id w =
      post_event
        (record {
          type = timeout_event;
          peer_endpoint = none;
          connection_assigned_id = connection_id;
          stream = none;
        })
        w

  -- The event that the lambda `on_data` posts for a new client. It is named `event` like the
  -- parameter, so its id and endpoint are assigned from itself: they keep their defaults.
  abbrev pub connect_event : Event asio.Endpoint
  connect_event = record {
    type = connect;
    peer_endpoint = none;
    connection_assigned_id = 0;
    stream = none;
  }

  unfoldable pub event_authorization : Event asio.Endpoint → String
  event_authorization event = elim event.stream [ none ↦ "" | some stream ↦ stream.authorization ]

  -- `MarkClientConnected`.
  abbrev mark_client_connected : ServerWorld → ServerWorld
  mark_client_connected w = record w { conn = record w.conn { connected = true } }

  -- The lambda `on_data`.
  unfoldable pub server_on_data : Event asio.Endpoint → ServerWorld → ServerWorld
  unfolding event_authorization
  server_on_data event w =
      if w.conn.connected
      then post_event event w
      else if not (str_eq (event_authorization event) w.app.settings.authorization)
      then close asio quiche "invalid auth token" w
      else post_event event (post_event connect_event (mark_client_connected w))

  -- The callbacks; `on_connect` only logs.
  abbrev pub server_callbacks : Callbacks asio quiche (ServerApp asio.Endpoint)
  server_callbacks = record {
    on_connect = λ connection_id peer_endpoint w. w;
    on_timeout = server_on_timeout;
    on_data = server_on_data;
  }
