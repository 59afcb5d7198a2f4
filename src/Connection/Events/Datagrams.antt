-- ===== src/Connection/Events/Datagrams.antt =====
-- `OnDatagram` ends where the library has so many events and bytes after it took the datagram.
use quicsend.Base.{ℕ, ◌<◌}
use quicsend.Asio.{Asio}
use quicsend.Quiche.{Quiche}
use quicsend.Quiche.Arrivals.{FiniteLaws}
use quicsend.Sockaddr.{Sockaddr}
use quicsend.Connection.{World, Callbacks, Event}
use quicsend.Connection.Events.Termination.{NoMore}

module _ {asio : Asio} {quiche : Quiche} {A : Type 0} (finite : FiniteLaws quiche)
    (callbacks : Callbacks asio quiche A)
    (calm : (event : Event asio.Endpoint) (w : World asio quiche A)
      → NoMore finite (callbacks.on_data event w).transport w.transport)
    (calm_connect : (id : ℕ) (peer : asio.Endpoint) (w : World asio quiche A)
      → NoMore finite (callbacks.on_connect id peer w).transport w.transport)
    (calm_h3 : (s : quiche.State) → NoMore finite (quiche.h3_conn_new_with_transport s).1 s)
    (fuel inner : ℕ) where
  open finite use {queued, unread}

  -- The fuel exceeds what the library has.
  abbrev pub Enough : quiche.State → Type 0
  Enough s = (queued s < fuel) × (unread s < inner)
