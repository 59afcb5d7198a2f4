-- ===== src/Connection/Events/Termination.antt =====
-- The two loops of `ProcessH3Events` end where the library has so many events and bytes, and the
-- inner one does not where reading goes on to fail.
use quicsend.Base.{
  ℕ, zero, suc, ◌≤◌, ◌<◌, ◌≡◌, refl, ◌∙◌, ◌⊎◌, inl, inr, Bool, true, false, ◌||◌, Option, none,
  some, arith, pos, pos_part, is_neg, int_eq, ℤ, negsuc, take, Bool-cases, Option-cases, lookup,
  insert, erase,
}
use quicsend.Asio.{Asio}
use quicsend.Quiche.{
  Quiche, H3Event, headers_event, data_event, finished_event, reset_event, priority_update_event,
  goaway_event, unknown_event, shutdown_read, shutdown_write,
}
use quicsend.Quiche.Arrivals.{FiniteLaws}
use quicsend.Connection.{World, Callbacks, Event}
use quicsend.Connection.Streams.{IncomingStream, on_data}
use quicsend.Connection.Events.{
  get_incoming_stream, recv_loop, max_datagram_recv_size, set_incoming, destroy_stream,
  on_headers_event, on_data_event, data_of, on_finished_event, on_event, process_h3_events,
}

module _ (quiche : Quiche) (http3 : Bool) where
  -- If every read of a stream fails with another code than that for the end, then no number of
  -- rounds ends the loop of ProcessH3Events over the body.
  pub recv_loop-stuck :
      (fuel id : ℕ) (stream : IncomingStream) (s : quiche.State)
      → ((t : quiche.State)
          → (is_neg (quiche.h3_recv_body http3 id max_datagram_recv_size t).0 ≡ true)
            × (int_eq (quiche.h3_recv_body http3 id max_datagram_recv_size t).0 quiche.err_done
                ≡ false))
      → recv_loop quiche http3 fuel id stream s ≡ none
  unfolding recv_loop
  recv_loop-stuck zero id stream s fails = refl
  recv_loop-stuck (suc fuel) id stream s fails =
      let (len, buffer, s') = quiche.h3_recv_body http3 id max_datagram_recv_size s in
      ground (arith, fails s, recv_loop-stuck fuel id stream s' fails, not_zero len)
    where
      not_zero : (r : ℤ) → is_neg r ≡ true → int_eq r (pos 0) ≡ false
      not_zero (pos n) h = cc
      not_zero (negsuc n) h = refl

module _ {quiche : Quiche} (finite : FiniteLaws quiche) where
  open finite use {queued, unread}

  -- No more events and bytes than before.
  abbrev pub NoMore : quiche.State → quiche.State → Type 0
  NoMore t s = (queued t ≤ queued s) × (unread t ≤ unread s)

  -- A read that fails with another code than that for the end.
  abbrev pub Fails : Bool → ℕ → Type 0
  Fails http3 id =
      (s : quiche.State) × (is_neg (quiche.h3_recv_body http3 id max_datagram_recv_size s).0 ≡ true)
      × (int_eq (quiche.h3_recv_body http3 id max_datagram_recv_size s).0 quiche.err_done ≡ false)

  -- A loop over a body whose fuel exceeds what is unread and that does not end, since its reads fail.
  pub record Stuck (fuel : ℕ) : Type 0 where
    pub http3 : Bool
    pub id : ℕ
    pub stream : IncomingStream
    pub start : quiche.State
    pub enough : unread start < fuel
    pub never_ends : recv_loop quiche http3 fuel id stream start ≡ none
    pub fails : Fails http3 id

  abbrev LoopEnds : Bool → ℕ → ℕ → IncomingStream → quiche.State → Type 0
  LoopEnds http3 fuel id stream s =
      ((r : IncomingStream × quiche.State) × (recv_loop quiche http3 fuel id stream s ≡ some r)
        × NoMore r.1 s)
      ⊎ ((recv_loop quiche http3 fuel id stream s ≡ none) × (Fails http3 id ⊎ (fuel ≤ unread s)))

  -- A round from which the loop goes on.
  LoopEnds-next :
      (http3 : Bool) (fuel id : ℕ) (stream stream' : IncomingStream) (s s' : quiche.State)
      → recv_loop quiche http3 (suc fuel) id stream s ≡ recv_loop quiche http3 fuel id stream' s'
      → NoMore s' s
      → Fails http3 id ⊎ (suc (unread s') ≤ unread s)
      → LoopEnds http3 fuel id stream' s'
      → LoopEnds http3 (suc fuel) id stream s
  LoopEnds-next http3 fuel id stream stream' s s' e less why (inl (r, f, least)) =
      inl (r, e ∙ f, omega (arith, less, least))
  LoopEnds-next http3 fuel id stream stream' s s' e less (inl fails) (inr (f, old)) =
      inr (e ∙ f, inl fails)
  LoopEnds-next http3 fuel id stream stream' s s' e less (inr fewer) (inr (f, inl fails)) =
      inr (e ∙ f, inl fails)
  LoopEnds-next http3 fuel id stream stream' s s' e less (inr fewer) (inr (f, inr short)) =
      inr (e ∙ f, inr (omega arith))

  recv_loop-ends :
      (http3 : Bool) (fuel id : ℕ) (stream : IncomingStream) (s : quiche.State)
      → LoopEnds http3 fuel id stream s
  unfolding recv_loop
  recv_loop-ends http3 zero id stream s = inr (refl, inr (omega arith))
  recv_loop-ends http3 (suc fuel) id stream s =
      let (len, buffer, s') = quiche.h3_recv_body http3 id max_datagram_recv_size s in
      let falls = finite.recv_falls http3 id max_datagram_recv_size s in
      elim (Bool-cases (int_eq len quiche.err_done || int_eq len (pos 0))) [
        | inl ended ↦ inl ((stream, s'), ground (arith, ended), ground (arith, falls, ended))
        | inr more ↦ elim (Bool-cases (is_neg len)) [
          | inl failed ↦
              LoopEnds-next http3 fuel id stream stream s s' (ground (arith, more, failed))
                (ground (arith, falls, more, failed)) (inl (s, failed, ground (arith, more)))
                (recv_loop-ends http3 fuel id stream s')
          | inr taken ↦
              let stream' = on_data (take (pos_part len) buffer) stream in
              LoopEnds-next http3 fuel id stream stream' s s' (ground (arith, more, taken))
                (ground (arith, falls, more, taken)) (inr (ground (arith, falls, more, taken)))
                (recv_loop-ends http3 fuel id stream' s')
        ]
      ]

  module _ {asio : Asio} {A : Type 0} (callbacks : Callbacks asio quiche A)
      (calm : (event : Event asio.Endpoint) (w : World asio quiche A)
        → NoMore (callbacks.on_data event w).transport w.transport) where
    abbrev Ends : Option (World asio quiche A) → World asio quiche A → Type 0
    Ends r w = (w' : World asio quiche A) × (r ≡ some w') × NoMore w'.transport w.transport

    destroy_stream-NoMore :
        (id : ℕ) (w : World asio quiche A)
        → NoMore (destroy_stream asio quiche callbacks id w).transport w.transport
    unfolding destroy_stream
    destroy_stream-NoMore id w =
        let t = quiche.conn_stream_shutdown id shutdown_read w.transport in
        omega (
          arith,
          finite.shutdown_adds_none id shutdown_read w.transport,
          finite.shutdown_adds_none id shutdown_write t,
        )

    on_finished_event-NoMore :
        (id : ℕ) (w : World asio quiche A)
        → NoMore (on_finished_event asio quiche callbacks id w).transport w.transport
    unfolding on_finished_event set_incoming data_of
    on_finished_event-NoMore id w = elim (Option-cases (lookup id w.conn.incoming_streams_by_id)) [
      | inl missing ↦ ground (arith, missing)
      | inr (stream, found) ↦
          let w' = set_incoming asio quiche callbacks (erase id w.conn.incoming_streams_by_id) w in
          let event = data_of asio quiche callbacks stream w in
          let u = callbacks.on_data event w' in
          ground (arith, found, calm event w', destroy_stream-NoMore id u)
    ]

    on_event-Ends :
        (fuel id : ℕ) (event : H3Event) (w : World asio quiche A)
        → unread w.transport < fuel
        → Ends (on_event asio quiche callbacks fuel id event w) w ⊎ Stuck fuel
    unfolding on_event on_headers_event on_data_event set_incoming
    on_event-Ends fuel id (headers_event headers) w h = inl (_, refl, omega arith)
    on_event-Ends fuel id data_event w h =
        let stream = get_incoming_stream id w.conn.incoming_streams_by_id in
        elim (recv_loop-ends w.conn.http3 fuel id stream w.transport) [
          | inl (r, e, least) ↦ inl (
            set_incoming asio quiche callbacks (insert id r.0 w.conn.incoming_streams_by_id)
                (record w { transport = r.1 }),
            ground (arith, e),
            least,
          )
          | inr (never, inr short) ↦ absurd (omega arith)
          | inr (never, inl fails) ↦ inr (record {
            http3 = w.conn.http3;
            id = id;
            stream = stream;
            start = w.transport;
            enough = h;
            never_ends = never;
            fails = fails;
          })
        ]
    on_event-Ends fuel id finished_event w h = inl (_, refl, on_finished_event-NoMore id w)
    on_event-Ends fuel id reset_event w h = inl (_, refl, destroy_stream-NoMore id w)
    on_event-Ends fuel id priority_update_event w h = inl (w, refl, omega arith)
    on_event-Ends fuel id goaway_event w h =
        inl (_, refl, finite.close_adds_none "Received GOAWAY" w.transport)
    on_event-Ends fuel id unknown_event w h = inl (w, refl, omega arith)

    -- If each event that is polled and each read of bytes leaves the library with fewer events or
    -- reads, and no call nor the callback adds to them, then ProcessH3Events returns, given fuel
    -- beyond their numbers, or a loop over a body is stuck in reads that fail.
    pub process_h3_events-ends :
        (fuel inner : ℕ) (w : World asio quiche A)
        → queued w.transport < fuel
        → unread w.transport < inner
        → ((w' : World asio quiche A) × (process_h3_events asio quiche callbacks fuel inner w
              ≡ some w'))
          ⊎ Stuck inner
    unfolding process_h3_events
    process_h3_events-ends zero inner w h k = absurd (omega arith)
    process_h3_events-ends (suc fuel) inner w h k =
        let (stream_id, event, t) = quiche.h3_conn_poll w.conn.http3 w.transport in
        let u : World asio quiche A = record w { transport = t } in
        elim (Bool-cases (int_eq stream_id quiche.err_done || is_neg stream_id)) [
          | inl ended ↦ inl (u, ground (arith, ended))
          | inr more ↦
              let falls = finite.poll_falls w.conn.http3 w.transport more in
              elim (on_event-Ends inner (pos_part stream_id) event u (omega (arith, falls, k))) [
                | inr stuck ↦ inr stuck
                | inl (x, handled, least) ↦
                    elim (process_h3_events-ends fuel inner x (omega (arith, falls, least, h))
                      (omega (arith, falls, least, k))) [
                        | inl (w', e) ↦ inl (w', ground (arith, more, handled, e))
                        | inr stuck ↦ inr stuck
                      ]
              ]
        ]
