-- ===== src/Client/Reception.antt =====
-- The messages that the connection of the client puts into the mailbox.
use quicsend.Base.{◌≡◌, true, arith}
use quicsend.Asio.{Asio}
use quicsend.Quiche.{Quiche}
use quicsend.Quiche.Arrivals.{EventLaws}
use quicsend.Mailbox.{post}
use quicsend.Connection.Events.Delivery.{Delivers}
use quicsend.Connection.Events.Posted.{messages_in, messages_in-post}
use quicsend.Client.{client_callbacks, client_on_data}

module _ (asio : Asio) (quiche : Quiche) (laws : EventLaws quiche) where
  -- While the client is let in, its callback posts each message.
  pub client-Delivers :
      Delivers laws
        (client_callbacks asio quiche)
        (λ app. messages_in app.mailbox.events)
        (λ c. c.connected ≡ true)
  unfolding client_on_data post
  client-Delivers = record {
    stays = λ incoming outgoing c opened. opened;
    posts = λ event stream w e f opened.
        ground (arith, opened, messages_in-post event stream w.app.mailbox.events e f);
  }
