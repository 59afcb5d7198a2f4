-- ===== src/Client/Pinning.antt =====
-- What the callbacks of the client's connection let through to the application.
use quicsend.Base.{ℕ, ◌≡◌, [], ◌∷◌, ◌++◌, append-nil, ◌||◌, arith, bytes_eq, if◌then◌else◌}
use quicsend.Asio.{Asio}
use quicsend.Quiche.{Quiche}
use quicsend.Mailbox.{post}
use quicsend.Connection.Lifecycle.{compare_peer_certificate}
use quicsend.Connection.TimeoutOnce.{Counted}
use quicsend.Server.Authorization.{is_timeout, timeouts, timeouts-append}
use quicsend.Client.{
  ClientApp, ClientWorld, connect_event, client_on_connect, client_on_data, client_on_timeout,
  client_close, client_callbacks,
}

module _ {Endpoint : Type 0} where
  -- How many reports of a timeout wait in the mailbox.
  abbrev pub client_reports : ClientApp Endpoint → ℕ
  client_reports app = timeouts app.mailbox.events

module _ (asio : Asio) (quiche : Quiche) where
  -- When the connection of the client is established: if the certificate of the peer is the one
  -- the client was given, byte for byte, then the connection is let in and a connect event is
  -- posted; if not, nothing is posted, no connection is let in, and quiche is told to close.
  pub client_on_connect-pinned :
      (id : ℕ) (peer : asio.Endpoint) (w : ClientWorld asio quiche)
      → let matches = bytes_eq (quiche.conn_peer_cert w.transport) w.app.cert_der in
        let w' = client_on_connect asio quiche id peer w in
        (w'.conn.connected ≡ (matches || w.conn.connected))
        × (w'.transport ≡ (
            if matches
            then w.transport
            else quiche.conn_close "Peer certificate does not match" w.transport))
        × (w'.app.mailbox.events
            ≡ w.app.mailbox.events
              ++ (if matches then connect_event asio quiche id peer ∷ [] else []))
  unfolding client_on_connect compare_peer_certificate post
  client_on_connect-pinned id peer w = ground (arith, append-nil w.app.mailbox.events)

  pub client-Counted : Counted (client_callbacks asio quiche) client_reports
  unfolding client_on_connect client_on_data client_on_timeout client_close compare_peer_certificate
      post
  client-Counted = record {
    connect_quiet = λ id e w.
        ground (arith, timeouts-append w.app.mailbox.events (connect_event asio quiche id e ∷ []));
    data_quiet = λ event w e.
        let silent : is_timeout event.type ≡ 0 = rw e in
        ground (arith, silent, timeouts-append w.app.mailbox.events (event ∷ []));
    timeout_counts =
        λ id w. omega (arith, timeouts-append {Endpoint = asio.Endpoint} w.app.mailbox.events);
  }
