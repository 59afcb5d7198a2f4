-- ===== src/Connection/Requests.antt =====
-- `QuicheConnection::SendBody`, `SendResponse` and `SendRequest`.
use quicsend.Base.{
  ℕ, List, [], ◌∷◌, ◌++◌, Bool, true, false, ◌&&◌, ◌||◌, Option, none, some, ℤ, negsuc, pos_part,
  is_neg, int_eq, length, leb, if◌then◌else◌,
}
use quicsend.Asio.{Asio}
use quicsend.Quiche.{Quiche, Headers}
use quicsend.Connection.{World, Callbacks}
use quicsend.Connection.Streams.{CachedResponse}
use quicsend.Connection.Transfers.{offer_body}
use quicsend.Connection.Egress.{flush_egress}

-- What one round of the loop of `SendRequest` comes to.
pub data Attempt : Type 0 where
  blocked : Attempt
  returned : ℤ → Attempt

module _ (asio : Asio) (quiche : Quiche) {A : Type 0} (callbacks : Callbacks asio quiche A) where
  open quiche use {
    h3_send_request, h3_send_response, h3_err_stream_blocked, h3_transport_err_stream_limit,
    conn_is_established,
  }

  unfoldable pub offered : ℕ → List ℕ → World asio quiche A → Bool × World asio quiche A
  offered stream_id body w =
      let (done, streams, t) =
        offer_body quiche w.conn.http3 stream_id body w.conn.outgoing_streams_by_id w.transport in
      (done, record w { conn = record w.conn { outgoing_streams_by_id = streams }; transport = t })

  -- `SendBody`; `body` is empty where `bytes <= 0`.
  unfoldable pub send_body : ℕ → List ℕ → World asio quiche A → Bool × World asio quiche A
  unfolding offered
  send_body stream_id body w =
      if leb (length body) 0
      then (true, (flush_egress asio quiche callbacks w).1)
      else let (done, w') = offered stream_id body w in
        if done then (true, (flush_egress asio quiche callbacks w').1) else (false, w')

  -- `SendResponse`. A response that is cached keeps pointers into the strings of the headers, which
  -- the caller frees; `stale` is what they lead to when the response is flushed.
  unfoldable pub send_response :
      (Headers → Headers) → ℕ → Headers → List ℕ → World asio quiche A → Bool × World asio quiche A
  send_response stale stream_id headers body w =
      if w.conn.timeout
      then (false, w)
      else let (r, t) =
          h3_send_response w.conn.http3 stream_id headers (leb (length body) 0) w.transport in
        let w' : World asio quiche A = record w { transport = t } in
        let cached : CachedResponse = record {
          stream_id = stream_id;
          headers = stale headers;
          body = body;
          bytes_left = length body;
        } in
        if int_eq r h3_err_stream_blocked && conn_is_established t
        then (
          false,
          record w' {
            conn = record w.conn { response_cache = w.conn.response_cache ++ cached ∷ [] };
          },
        )
        else if is_neg r
        then (false, w')
        else send_body stream_id body w'

  -- One round of the loop of `SendRequest`, with the lock held.
  unfoldable pub send_request_once :
      Headers → List ℕ → World asio quiche A → Attempt × World asio quiche A
  send_request_once headers body w =
      let (r, t) = h3_send_request w.conn.http3 headers (leb (length body) 0) w.transport in
      let w' : World asio quiche A = record w { transport = t } in
      if (int_eq r h3_err_stream_blocked || int_eq r h3_transport_err_stream_limit)
        && conn_is_established t
      then (blocked, w')
      else if is_neg r
      then (returned (negsuc 0), w')
      else (returned r, (send_body (pos_part r) body w').1)

  -- `SendRequest`: `others` is what the other threads do in each sleep between two rounds. `none`
  -- stands for a call that is still blocked behind the last of them.
  unfoldable pub send_request :
      List (World asio quiche A → World asio quiche A)
      → Headers
      → List ℕ
      → World asio quiche A
      → Option ℤ × World asio quiche A
  send_request [] headers body w =
      if w.conn.timeout
      then (some (negsuc 0), w)
      else let (attempt, w') = send_request_once headers body w in
        elim attempt [ blocked ↦ (none, w') | returned r ↦ (some r, w') ]
  send_request (sleep ∷ others) headers body w =
      let (attempt, w') = send_request_once headers body w in
      let rest = send_request others headers body (sleep w') in
      if w.conn.timeout
      then (some (negsuc 0), w)
      else elim attempt [ blocked ↦ rest | returned r ↦ (some r, w') ]
