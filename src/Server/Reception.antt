-- ===== src/Server/Reception.antt =====
-- The messages that a connection of the server puts into the mailbox.
use quicsend.Base.{◌≡◌, true, arith}
use quicsend.Asio.{Asio}
use quicsend.Quiche.{Quiche}
use quicsend.Quiche.Arrivals.{EventLaws}
use quicsend.Mailbox.{post}
use quicsend.Connection.Events.Delivery.{Delivers}
use quicsend.Connection.Events.Posted.{messages_in, messages_in-post}
use quicsend.Server.{server_callbacks, server_on_data}

module _ (asio : Asio) (quiche : Quiche) (laws : EventLaws quiche) where
  -- Once the client is let in, the callback posts each message.
  pub server-Delivers :
      Delivers laws
        (server_callbacks asio quiche)
        (λ app. messages_in app.mailbox.events)
        (λ c. c.connected ≡ true)
  unfolding server_on_data post
  server-Delivers = record {
    stays = λ incoming outgoing c opened. opened;
    posts = λ event stream w e f opened.
        ground (arith, opened, messages_in-post event stream w.app.mailbox.events e f);
  }
