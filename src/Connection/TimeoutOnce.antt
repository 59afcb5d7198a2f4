-- ===== src/Connection/TimeoutOnce.antt =====
-- The application hears of the end of a connection once, whichever methods run in whichever order.
use quicsend.Base.{
  ℕ, zero, suc, ◌≡◌, refl, subst, inl, inr, List, Bool, false, ◌||◌, Option, none, some, arith,
  String, is_neg, pos_part, Bool-cases, Option-cases, int_eq, leb, length, lookup, erase,
  if◌then◌else◌,
}
use quicsend.Asio.{Asio}
use quicsend.Sockaddr.{to_sockaddr}
use quicsend.Quiche.{
  Quiche, Headers, H3Event, headers_event, data_event, finished_event, reset_event,
  priority_update_event, goaway_event, unknown_event,
}
use quicsend.Connection
use quicsend.Connection.{World, Callbacks, Event}
use quicsend.Connection.Egress.{
  tick_timeout, flush_bodies, drain, flush_egress_with, flush_egress, on_quiche_timer,
}
use quicsend.Connection.Requests.{send_body, offered, send_response, send_request_once}
use quicsend.Connection.Lifecycle.{close, compare_peer_certificate}
use quicsend.Connection.Events.{
  Outcome, received, recv, set_incoming, data_of, on_data_event, get_incoming_stream, recv_loop,
  returned, threw, running, on_event, on_finished_event, destroy_stream, process_h3_events,
  on_datagram, settle, open_h3,
}

-- `reports` counts, in the state of the application, the reports of a timeout. The callbacks that
-- are no such report keep the count and the flag of the connection; `on_timeout` adds one.
pub record Counted {asio : Asio} {quiche : Quiche} {A : Type 0}
    (callbacks : Callbacks asio quiche A) (reports : A → ℕ) : Type 0 where
  pub connect_quiet :
      (id : ℕ) (e : asio.Endpoint) (w : World asio quiche A)
      → (reports (callbacks.on_connect id e w).app ≡ reports w.app)
        × ((callbacks.on_connect id e w).conn.timeout ≡ w.conn.timeout)
  pub data_quiet :
      (event : Event asio.Endpoint) (w : World asio quiche A)
      → event.type ≡ Connection.data_event
      → (reports (callbacks.on_data event w).app ≡ reports w.app)
        × ((callbacks.on_data event w).conn.timeout ≡ w.conn.timeout)
  pub timeout_counts :
      (id : ℕ) (w : World asio quiche A)
      → reports (callbacks.on_timeout id w).app ≡ suc (reports w.app)

module _ {asio : Asio} {quiche : Quiche} {A : Type 0} (callbacks : Callbacks asio quiche A)
    (reports : A → ℕ) (counted : Counted callbacks reports) where
  -- One report if the connection is down, and none before.
  abbrev pub Once : World asio quiche A → Type 0
  Once w = reports w.app ≡ (if w.conn.timeout then 1 else 0)

  tick_timeout-Once :
      (w : World asio quiche A) → Once w → Once (tick_timeout asio quiche callbacks w)
  unfolding tick_timeout
  tick_timeout-Once w h = ground (arith, counted.timeout_counts w.conn.assigned_id w)

  flush_egress_with-Once :
      (buffer : Option ℕ) (w : World asio quiche A)
      → Once w
      → Once (flush_egress_with asio quiche callbacks buffer w).3
  unfolding flush_egress_with flush_bodies
  flush_egress_with-Once buffer w h =
      let w' = (drain asio quiche callbacks buffer (flush_bodies asio quiche callbacks w)).3 in
      ground (arith, tick_timeout-Once w')

  flush_egress-Once :
      (w : World asio quiche A) → Once w → Once (flush_egress asio quiche callbacks w).1
  unfolding flush_egress
  flush_egress-Once w h = ground (arith, flush_egress_with-Once none w)

  on_quiche_timer-Once :
      (ec : Bool) (w : World asio quiche A)
      → Once w
      → Once (on_quiche_timer asio quiche callbacks ec w)
  unfolding on_quiche_timer
  on_quiche_timer-Once ec w h = ground (
    arith,
    flush_egress-Once (record w {
      conn = record w.conn { timer_set = false; quiche_timer = none };
      transport = quiche.conn_on_timeout w.transport;
    }),
  )

  send_body-Once :
      (id : ℕ) (body : List ℕ) (w : World asio quiche A)
      → Once w
      → Once (send_body asio quiche callbacks id body w).1
  unfolding send_body offered
  send_body-Once id body w h =
      ground
        (arith, flush_egress-Once w, flush_egress-Once (offered asio quiche callbacks id body w).1)

  send_response-Once :
      (stale : Headers → Headers) (id : ℕ) (headers : Headers) (body : List ℕ)
      (w : World asio quiche A)
      → Once w
      → Once (send_response asio quiche callbacks stale id headers body w).1
  unfolding send_response
  send_response-Once stale id headers body w h =
      let out = quiche.h3_send_response w.conn.http3 id headers (leb (length body) 0) w.transport in
      ground (arith, send_body-Once id body (record w { transport = out.1 }))

  send_request_once-Once :
      (headers : Headers) (body : List ℕ) (w : World asio quiche A)
      → Once w
      → Once (send_request_once asio quiche callbacks headers body w).1
  unfolding send_request_once
  send_request_once-Once headers body w h =
      let out = quiche.h3_send_request w.conn.http3 headers (leb (length body) 0) w.transport in
      ground (arith, send_body-Once (pos_part out.0) body (record w { transport = out.1 }))

  close-Once :
      (reason : String) (w : World asio quiche A) → Once w → Once (close asio quiche reason w)
  unfolding close
  close-Once reason w h = ground arith

  compare_peer_certificate-Once :
      (cert : List ℕ) (w : World asio quiche A)
      → Once w
      → Once (compare_peer_certificate asio quiche cert w).1
  unfolding compare_peer_certificate
  compare_peer_certificate-Once cert w h = ground arith

  abbrev OnceIf : Option (World asio quiche A) → Type 0
  OnceIf none = Unit {0}
  OnceIf (some w) = Once w

  abbrev OnceAfter : Outcome (World asio quiche A) → Type 0
  OnceAfter (returned w) = Once w
  OnceAfter (threw w) = Once w
  OnceAfter running = Unit {0}

  on_finished_event-Once :
      (id : ℕ) (w : World asio quiche A)
      → Once w
      → Once (on_finished_event asio quiche callbacks id w)
  unfolding on_finished_event destroy_stream data_of
  on_finished_event-Once id w h = elim (Option-cases (lookup id w.conn.incoming_streams_by_id)) [
    | inl e ↦ rw (e, on_finished_event) h
    | inr (stream, e) ↦
        let w' = set_incoming asio quiche callbacks (erase id w.conn.incoming_streams_by_id) w in
        ground (arith, e, counted.data_quiet (data_of asio quiche callbacks stream w) w' refl)
  ]

  on_event-Once :
      (fuel id : ℕ) (event : H3Event) (w : World asio quiche A)
      → Once w
      → OnceIf (on_event asio quiche callbacks fuel id event w)
  unfolding on_event destroy_stream
  on_event-Once fuel id (headers_event headers) w h = h
  on_event-Once fuel id data_event w h =
      let stream = get_incoming_stream id w.conn.incoming_streams_by_id in
      elim (Option-cases (recv_loop quiche w.conn.http3 fuel id stream w.transport)) [
        | inl e ↦ rw (e, on_data_event) tt
        | inr (_, e) ↦ rw (e, on_data_event) h
      ]
  on_event-Once fuel id finished_event w h = on_finished_event-Once id w h
  on_event-Once fuel id reset_event w h = h
  on_event-Once fuel id priority_update_event w h = h
  on_event-Once fuel id goaway_event w h = h
  on_event-Once fuel id unknown_event w h = h

  OnceIf-next :
      (o : Option (World asio quiche A)) (next : World asio quiche A → Option (World asio quiche A))
      → OnceIf o
      → ((u : World asio quiche A) → Once u → OnceIf (next u))
      → OnceIf (elim o [ none ↦ none | some u ↦ next u ])
  OnceIf-next none next h k = tt
  OnceIf-next (some u) next h k = k u h

  process_h3_events-Once :
      (fuel inner : ℕ) (w : World asio quiche A)
      → Once w
      → OnceIf (process_h3_events asio quiche callbacks fuel inner w)
  unfolding process_h3_events
  process_h3_events-Once zero inner w h = tt
  process_h3_events-Once (suc fuel) inner w h =
      let (id, event, t) = quiche.h3_conn_poll w.conn.http3 w.transport in
      let w' : World asio quiche A = record w { transport = t } in
      elim (Bool-cases (int_eq id quiche.err_done || is_neg id)) [
        | inl over ↦ rw over h
        | inr more ↦ rw more (
            OnceIf-next (on_event asio quiche callbacks inner (pos_part id) event w')
              (process_h3_events asio quiche callbacks fuel inner)
              (on_event-Once inner (pos_part id) event w' h) (process_h3_events-Once fuel inner))
      ]

  settle-Once : (w : World asio quiche A) → Once w → OnceAfter (settle asio quiche callbacks w)
  unfolding settle
  settle-Once w h = ground (arith, counted.timeout_counts w.conn.assigned_id w, flush_egress-Once w)

  open_h3-Once : (w : World asio quiche A) → Once w → Once (open_h3 asio quiche callbacks w).1
  unfolding open_h3
  open_h3-Once w h =
      let (created, t) = quiche.h3_conn_new_with_transport w.transport in
      let w' : World asio quiche A = record w {
        conn = record w.conn { http3 = created };
        transport = t;
      } in
      ground (arith, counted.connect_quiet w.conn.assigned_id w.conn.peer_endpoint w')

  received-Once :
      (fuel inner : ℕ) (w : World asio quiche A)
      → Once w
      → OnceAfter (received asio quiche callbacks fuel inner w)
  unfolding received
  received-Once fuel inner w h = elim (Bool-cases (quiche.conn_is_established w.transport)) [
    | inr early ↦ rw early (settle-Once w h)
    | inl up ↦
        let (opened, w') = open_h3 asio quiche callbacks w in
        let h' = open_h3-Once w h in
        elim (Bool-cases opened) [
          | inr failed ↦ rw (up, failed) h'
          | inl done ↦
              rw (up, done)
                (settled (process_h3_events asio quiche callbacks fuel inner w')
                  (process_h3_events-Once fuel inner w' h'))
        ]
  ]
    where
      settled :
          (o : Option (World asio quiche A))
          → OnceIf o
          → OnceAfter (elim o [ none ↦ running | some u ↦ settle asio quiche callbacks u ])
      settled none k = tt
      settled (some u) k = settle-Once u k

  on_datagram-Once :
      (fuel inner : ℕ) (bytes : List ℕ) (peer : asio.Endpoint) (w : World asio quiche A)
      → Once w
      → OnceAfter (on_datagram asio quiche callbacks fuel inner bytes peer w)
  unfolding on_datagram recv
  on_datagram-Once fuel inner bytes peer w h = elim (Option-cases (to_sockaddr asio peer)) [
    | inl e ↦ rw (e, on_datagram) h
    | inr (from, e) ↦ elim (Option-cases (to_sockaddr asio w.socket.local_endpoint)) [
      | inl e' ↦ rw (e, on_datagram, e') h
      | inr (to, e') ↦
          let w' : World asio quiche A = record w {
            conn = record w.conn { peer_endpoint = peer };
          } in
          let (done, t) = quiche.conn_recv bytes from to w.transport in
          let taken = received-Once fuel inner (record w' { transport = t }) h in
          elim (Bool-cases (is_neg done)) [
            | inl bad ↦ rw (e, on_datagram, e', bad) h
            | inr good ↦ rw (e, on_datagram, e', good) taken
          ]
    ]
  ]

  -- One call of a method, by whichever thread holds the lock. A call of `SendRequest` is its rounds.
  pub data Step (w : World asio quiche A) : World asio quiche A → Type 0 where
    datagram :
        {u : World asio quiche A} (fuel inner : ℕ) (bytes : List ℕ) (peer : asio.Endpoint)
        → on_datagram asio quiche callbacks fuel inner bytes peer w ≡ returned u
        → Step w u
    flush : (buffer : Option ℕ) → Step w (flush_egress_with asio quiche callbacks buffer w).3
    timer : (ec : Bool) → Step w (on_quiche_timer asio quiche callbacks ec w)
    respond :
        (stale : Headers → Headers) (id : ℕ) (headers : Headers) (body : List ℕ)
        → Step w (send_response asio quiche callbacks stale id headers body w).1
    request :
        (headers : Headers) (body : List ℕ)
        → Step w (send_request_once asio quiche callbacks headers body w).1
    closes : (reason : String) → Step w (close asio quiche reason w)
    compares : (cert : List ℕ) → Step w (compare_peer_certificate asio quiche cert w).1

  pub data Reach (w : World asio quiche A) : World asio quiche A → Type 0 where
    here : Reach w w
    next : {u v : World asio quiche A} → Reach w u → Step u v → Reach w v

  Step-Once : {w u : World asio quiche A} → Step w u → Once w → Once u
  Step-Once {w} (datagram fuel inner bytes peer e) h =
      subst OnceAfter e (on_datagram-Once fuel inner bytes peer w h)
  Step-Once {w} (flush buffer) h = flush_egress_with-Once buffer w h
  Step-Once {w} (timer ec) h = on_quiche_timer-Once ec w h
  Step-Once {w} (respond stale id headers body) h = send_response-Once stale id headers body w h
  Step-Once {w} (request headers body) h = send_request_once-Once headers body w h
  Step-Once {w} (closes reason) h = close-Once reason w h
  Step-Once {w} (compares cert) h = compare_peer_certificate-Once cert w h

  -- From a connection that is up and of which no timeout has been reported, after any sequence of
  -- datagrams that are handled without an exception, flushes, timer expiries, responses,
  -- requests, closings and certificate comparisons, in any order: exactly one timeout has been
  -- reported if the connection is marked as down, and none if it is not. The callbacks may be any
  -- that report a timeout in on_timeout alone.
  pub Reach-Once :
      {w u : World asio quiche A}
      → reports w.app ≡ 0
      → w.conn.timeout ≡ false
      → Reach w u
      → reports u.app ≡ (if u.conn.timeout then 1 else 0)
  Reach-Once {w} z up here = rw up z
  Reach-Once z up (next r st) = Step-Once st (Reach-Once z up r)
