-- ===== src/Connection/Lifecycle.antt =====
-- `QuicheConnection::Close` and `ComparePeerCertificate`.
use quicsend.Base.{ℕ, List, Bool, true, false, String, is_neg, bytes_eq, if◌then◌else◌}
use quicsend.Asio.{Asio}
use quicsend.Quiche.{Quiche}
use quicsend.Connection.{World}

module _ (asio : Asio) (quiche : Quiche) {A : Type 0} where
  open quiche use {h3_send_goaway, conn_close, conn_peer_cert}

  -- `Close` of a connection that has HTTP/3: where GOAWAY can be sent, that is all.
  unfoldable pub close_h3 : String → World asio quiche A → World asio quiche A
  close_h3 reason w =
      let (r, t) = h3_send_goaway w.conn.http3 w.conn.highest_processed_stream_id w.transport in
      if is_neg r
      then record w { conn = record w.conn { goaway_sent = true }; transport = conn_close reason t }
      else record w { transport = t }

  -- `Close`.
  unfoldable pub close : String → World asio quiche A → World asio quiche A
  unfolding close_h3
  close reason w =
      if w.conn.timeout
      then w
      else if w.conn.http3
      then close_h3 reason w
      else record w { transport = conn_close reason w.transport }

  -- `ComparePeerCertificate`, for certificates of less than 2 ^ 31 bytes, whose lengths the casts to
  -- `int` leave as they are.
  unfoldable pub compare_peer_certificate :
      List ℕ → World asio quiche A → Bool × World asio quiche A
  compare_peer_certificate cert w =
      if bytes_eq (conn_peer_cert w.transport) cert
      then (true, record w { conn = record w.conn { connected = true } })
      else (
        false,
        record w { transport = conn_close "Peer certificate does not match" w.transport },
      )
