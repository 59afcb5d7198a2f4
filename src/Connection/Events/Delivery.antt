-- ===== src/Connection/Events/Delivery.antt =====
-- `ProcessH3Events` and the callback `on_data`: each message reaches the application once, whole, in
-- the order in which the messages were finished.
use mathlib.Core.List.{map-append}
use quicsend.Base.{
  ℕ, zero, suc, ◌≡◌, refl, sym, ap, subst, ◌∙◌, inl, inr, List, [], ◌∷◌, ◌++◌, append-nil, map,
  Bool, true, false, ◌||◌, none, some, arith, pos_part, is_neg, int_eq, ◌==◌, Bool-cases,
  Option-cases, some-injective, if◌then◌else◌, lookup, insert, erase, lookup-erase,
}
use quicsend.Asio.{Asio}
use quicsend.Quiche.{
  Quiche, Headers, H3Event, headers_event, data_event, finished_event, reset_event,
  priority_update_event, goaway_event, unknown_event, shutdown_read, shutdown_write,
}
use quicsend.Quiche.Arrivals.{
  Piece, fields, content, Arrivals, add_piece, finish, observe, EventLaws,
}
use quicsend.Connection
use quicsend.Connection.{Connection, World, Callbacks, Event}
use quicsend.Connection.Streams.{IncomingStream, OutgoingStream, on_data}
use quicsend.Connection.Events.{
  get_incoming_stream, recv_loop, set_incoming, destroy_stream, on_headers_event, on_data_event,
  data_of, on_finished_event, on_event, process_h3_events,
}
use quicsend.Connection.Events.Assembly.{
  assembled, message, on_its_way, Waits, Adds, Waits-Adds, Adds-Adds, recv_loop-Read,
}

-- Callbacks that record what `on_data` is called with, while the connection is open for it: they
-- leave the incoming streams, and what the library has handed over, as they are.
pub record Delivers {asio : Asio} {quiche : Quiche} {A : Type 0} (laws : EventLaws quiche)
    (callbacks : Callbacks asio quiche A) (delivered : A → List IncomingStream)
    (Open : Connection asio.Endpoint → Type 0) : Type 0 where
  pub stays :
      (incoming : List (ℕ × IncomingStream)) (outgoing : List (ℕ × OutgoingStream))
      (c : Connection asio.Endpoint)
      → Open c
      → Open (record c { incoming_streams_by_id = incoming; outgoing_streams_by_id = outgoing })
  pub posts :
      (event : Event asio.Endpoint) (stream : IncomingStream) (w : World asio quiche A)
      → event.type ≡ Connection.data_event
      → event.stream ≡ some stream
      → Open w.conn
      → let w' = callbacks.on_data event w in
        (delivered w'.app ≡ delivered w.app ++ stream ∷ [])
        × (w'.conn.incoming_streams_by_id ≡ w.conn.incoming_streams_by_id)
        × (laws.view w'.transport ≡ laws.view w.transport)
        × Open w'.conn

module _ {asio : Asio} {quiche : Quiche} {A : Type 0} {laws : EventLaws quiche}
    {callbacks : Callbacks asio quiche A} {delivered : A → List IncomingStream}
    {Open : Connection asio.Endpoint → Type 0}
    (delivers : Delivers laws callbacks delivered Open) where
  open laws use {view}

  -- With the library's view: the application has had the messages that are finished, and the streams
  -- of the others wait.
  pub record Holds (v : Arrivals) (w : World asio quiche A) : Type 0 where
    pub waits : Waits v w.conn.incoming_streams_by_id
    pub had : delivered w.app ≡ map message v.messages
    pub is_open : Open w.conn

  abbrev pub Assembled : World asio quiche A → Type 0
  Assembled w = Holds (view w.transport) w

  Assembled-if :
      (b : Bool) (w u : World asio quiche A)
      → Assembled w
      → Assembled u
      → Assembled (if b then w else u)
  Assembled-if true w u h k = h
  Assembled-if false w u h k = k

  at_transport-Holds :
      (t : quiche.State) (v : Arrivals) (w : World asio quiche A)
      → Holds v w
      → Holds v (record w { transport = t })
  at_transport-Holds t v w a = record { waits = a.waits; had = a.had; is_open = a.is_open }

  -- Pieces that are added to a stream, in the library's view and in the map.
  added-Holds :
      (id : ℕ) (piece : Piece) (rest : List Piece) (stream : IncomingStream) (v v' : Arrivals)
      (w : World asio quiche A) (t : quiche.State)
      → Adds id (piece ∷ rest) v v'
      → stream ≡ assembled (piece ∷ rest) (get_incoming_stream id w.conn.incoming_streams_by_id)
      → Holds v w
      → Holds v' (
          set_incoming asio quiche callbacks
            (insert id stream w.conn.incoming_streams_by_id)
            (record w { transport = t }))
  unfolding set_incoming
  added-Holds id piece rest stream v v' w t adds e a = record {
    waits = rw e (Waits-Adds id piece rest v v' w.conn.incoming_streams_by_id adds a.waits);
    had = a.had ∙ ap (map message) (sym adds.1);
    is_open = delivers.stays _ w.conn.outgoing_streams_by_id w.conn a.is_open;
  }

  on_headers_event-Assembled :
      (id : ℕ) (headers : Headers) (v : Arrivals) (w : World asio quiche A)
      → view w.transport ≡ add_piece id (fields headers) v
      → Holds v w
      → Assembled (on_headers_event asio quiche callbacks id headers w)
  unfolding on_headers_event set_incoming
  on_headers_event-Assembled id headers v w e a =
      added-Holds id (fields headers) [] _ v (view w.transport) w w.transport
        (λ k. ap (λ u. u.pieces k) e, ap (λ u. u.messages) e) refl a

  no_more : (stream : IncomingStream) → on_data [] stream ≡ stream
  unfolding on_data
  no_more stream = ap (λ (b : List ℕ). record stream { buffer = b }) (append-nil stream.buffer)

  on_data_event-Assembled :
      (fuel id : ℕ) (v : Arrivals) (w w' : World asio quiche A)
      → on_data_event asio quiche callbacks fuel id w ≡ some w'
      → view w.transport ≡ add_piece id (content []) v
      → Holds v w
      → Assembled w'
  unfolding on_data_event set_incoming
  on_data_event-Assembled fuel id v w w' h e a =
      let stream = get_incoming_stream id w.conn.incoming_streams_by_id in
      elim (Option-cases (recv_loop quiche w.conn.http3 fuel id stream w.transport)) [
        | inl unending ↦ absurd (ground (arith, h, unending))
        | inr ((stream', t), ended) ↦
            let r =
              recv_loop-Read quiche laws w.conn.http3 fuel id stream stream' w.transport t ended in
            let after =
              set_incoming asio quiche callbacks (insert id stream' w.conn.incoming_streams_by_id)
                (record w { transport = t }) in
            let same : after ≡ w' = ground (arith, h, ended) in
            subst Assembled same (
              added-Holds id (content []) r.more stream' v (view t) w t
                (Adds-Adds id (content [] ∷ []) r.more v (view w.transport) (view t)
                  (λ k. ap (λ u. u.pieces k) e, ap (λ u. u.messages) e) r.adds)
                (r.adds_to ∙ ap (assembled r.more) (sym (no_more stream))) a)
      ]

  -- A stream of which nothing waits any more, and its entry erased.
  erased-Waits :
      (id : ℕ) (v v' : Arrivals) (incoming : List (ℕ × IncomingStream))
      → ((k : ℕ) → v'.pieces k ≡ (if id == k then [] else v.pieces k))
      → Waits v incoming
      → Waits v' (erase id incoming)
  erased-Waits id v v' incoming e h k = lookup-erase id k incoming ∙ ground (arith, e k, h k)

  destroy_stream-Holds :
      (id : ℕ) (v v' : Arrivals) (w : World asio quiche A)
      → ((k : ℕ) → v'.pieces k ≡ (if id == k then [] else v.pieces k))
      → v'.messages ≡ v.messages
      → Holds v w
      → Holds v' (destroy_stream asio quiche callbacks id w)
  unfolding destroy_stream
  destroy_stream-Holds id v v' w e m a = record {
    waits = erased-Waits id v v' w.conn.incoming_streams_by_id e a.waits;
    had = a.had ∙ ap (map message) (sym m);
    is_open = delivers.stays _ _ w.conn a.is_open;
  }

  view-destroy_stream :
      (id : ℕ) (w : World asio quiche A)
      → view (destroy_stream asio quiche callbacks id w).transport ≡ view w.transport
  unfolding destroy_stream
  view-destroy_stream id w =
      laws.shutdown_keeps id shutdown_write
        (quiche.conn_stream_shutdown id shutdown_read w.transport)
      ∙ laws.shutdown_keeps id shutdown_read w.transport

  -- A message that is finished goes to the application, and out of the map.
  posted-Holds :
      (id : ℕ) (piece : Piece) (rest : List Piece) (v : Arrivals) (w : World asio quiche A)
      → v.pieces id ≡ piece ∷ rest
      → view w.transport ≡ finish id (piece ∷ rest) v
      → Holds v w
      → let stream = message (id, piece ∷ rest) in
        Assembled (
          callbacks.on_data
            (data_of asio quiche callbacks stream w)
            (set_incoming asio quiche callbacks (erase id w.conn.incoming_streams_by_id) w))
  unfolding set_incoming data_of
  posted-Holds id piece rest v w p e a =
      let stream = message (id, piece ∷ rest) in
      let w' = set_incoming asio quiche callbacks (erase id w.conn.incoming_streams_by_id) w in
      let w'' = callbacks.on_data (data_of asio quiche callbacks stream w) w' in
      let opened = delivers.stays _ w.conn.outgoing_streams_by_id w.conn a.is_open in
      let (has, kept, seen, opened') =
        delivers.posts (data_of asio quiche callbacks stream w) stream w' refl refl opened in
      let ended = seen ∙ e in
      record {
        waits =
            subst (λ u. Waits u w''.conn.incoming_streams_by_id) (sym ended)
              (subst (λ inc. Waits (finish id (piece ∷ rest) v) inc) (sym kept)
                (erased-Waits id v (finish id (piece ∷ rest) v) w.conn.incoming_streams_by_id
                  (λ k. refl) a.waits));
        had =
            has
            ∙ ap (λ (xs : List IncomingStream). xs ++ stream ∷ []) a.had
            ∙ sym (map-append message v.messages ((id, piece ∷ rest) ∷ []))
            ∙ ap (λ (u : Arrivals). map message u.messages) (sym ended);
        is_open = opened';
      }

  view-posted :
      (id : ℕ) (stream : IncomingStream) (w : World asio quiche A)
      → Open w.conn
      → view
          (callbacks.on_data (data_of asio quiche callbacks stream w) (
            set_incoming asio quiche callbacks
              (erase id w.conn.incoming_streams_by_id)
              w)).transport
        ≡ view w.transport
  unfolding set_incoming data_of
  view-posted id stream w opened =
      (delivers.posts (data_of asio quiche callbacks stream w) stream
        (set_incoming asio quiche callbacks (erase id w.conn.incoming_streams_by_id) w) refl refl
        (delivers.stays _ w.conn.outgoing_streams_by_id w.conn opened)).2

  destroyed-Assembled :
      (id : ℕ) (w : World asio quiche A)
      → (view w.transport).pieces id ≡ []
      → Assembled w
      → Assembled (destroy_stream asio quiche callbacks id w)
  destroyed-Assembled id w none_left a =
      let v = view w.transport in
      subst (λ u. Holds u (destroy_stream asio quiche callbacks id w))
        (sym (view-destroy_stream id w))
        (destroy_stream-Holds id v v w
          (λ k. elim (Bool-cases (id == k)) [
            | inl own ↦
                let same : id ≡ k = ground arith in
                rw own (subst (λ j. v.pieces j ≡ []) same none_left)
            | inr other ↦ rw other refl
          ])
          refl a)

  on_finished_event-Assembled :
      (id : ℕ) (pieces : List Piece) (v : Arrivals) (w : World asio quiche A)
      → v.pieces id ≡ pieces
      → view w.transport ≡ finish id pieces v
      → Holds v w
      → Assembled (on_finished_event asio quiche callbacks id w)
  unfolding on_finished_event
  on_finished_event-Assembled id [] v w p e a =
      let missing : lookup id w.conn.incoming_streams_by_id ≡ none =
        a.waits id ∙ ap (on_its_way id) p in
      rw (on_finished_event, missing) (subst (λ u. Holds u w) (sym e) a)
  on_finished_event-Assembled id (piece ∷ rest) v w p e a =
      let found : lookup id w.conn.incoming_streams_by_id ≡ some (message (id, piece ∷ rest)) =
        a.waits id ∙ ap (on_its_way id) p in
      let w' =
        callbacks.on_data (data_of asio quiche callbacks (message (id, piece ∷ rest)) w)
          (set_incoming asio quiche callbacks (erase id w.conn.incoming_streams_by_id) w) in
      let posted = posted-Holds id piece rest v w p e a in
      let seen = view-posted id (message (id, piece ∷ rest)) w a.is_open in
      let none_left : (view w'.transport).pieces id ≡ [] =
        ap (λ (u : Arrivals). u.pieces id) (seen ∙ e) ∙ ground arith in
      rw (on_finished_event, found)
        (Assembled-if w'.conn.is_server w' _ posted (destroyed-Assembled id w' none_left posted))

  on_event-Assembled :
      (fuel id : ℕ) (event : H3Event) (v : Arrivals) (w w' : World asio quiche A)
      → on_event asio quiche callbacks fuel id event w ≡ some w'
      → view w.transport ≡ observe id event v
      → Holds v w
      → Assembled w'
  unfolding on_event
  on_event-Assembled fuel id (headers_event headers) v w w' h e a =
      subst Assembled (some-injective _ _ h) (on_headers_event-Assembled id headers v w e a)
  on_event-Assembled fuel id data_event v w w' h e a = on_data_event-Assembled fuel id v w w' h e a
  on_event-Assembled fuel id finished_event v w w' h e a =
      subst Assembled (some-injective _ _ h)
        (on_finished_event-Assembled id (v.pieces id) v w refl e a)
  on_event-Assembled fuel id reset_event v w w' h e a =
      let v' = observe id reset_event v in
      subst Assembled (some-injective _ _ h) (
        subst (λ u. Holds u (destroy_stream asio quiche callbacks id w))
          (sym (view-destroy_stream id w ∙ e)) (destroy_stream-Holds id v v' w (λ k. refl) refl a))
  on_event-Assembled fuel id priority_update_event v w w' h e a =
      subst Assembled (some-injective _ _ h) (subst (λ u. Holds u w) (sym e) a)
  on_event-Assembled fuel id goaway_event v w w' h e a =
      let t = quiche.conn_close "Received GOAWAY" w.transport in
      subst Assembled (some-injective _ _ h) (
        subst (λ u. Holds u (record w { transport = t }))
          (sym (laws.close_keeps "Received GOAWAY" w.transport ∙ e)) (at_transport-Holds t v w a))
  on_event-Assembled fuel id unknown_event v w w' h e a =
      subst Assembled (some-injective _ _ h) (subst (λ u. Holds u w) (sym e) a)

  -- If ProcessH3Events returns, then it keeps this: the application has had exactly the finished
  -- messages, each put together from all the headers and bytes that the library handed over for
  -- its stream, in their order, and in the order in which they were finished; the map of incoming
  -- streams has exactly the messages that are on their way. The pieces of different streams may
  -- come in any order. The callback records what it is called with while the connection is open
  -- for it, and neither it nor another call hands over pieces or changes the map.
  pub process_h3_events-Assembled :
      (fuel inner : ℕ) (w w' : World asio quiche A)
      → process_h3_events asio quiche callbacks fuel inner w ≡ some w'
      → Assembled w
      → Assembled w'
  unfolding process_h3_events
  process_h3_events-Assembled zero inner w w' h a = absurd (ground (arith, h))
  process_h3_events-Assembled (suc fuel) inner w w' h a =
      let (stream_id, event, t) = quiche.h3_conn_poll w.conn.http3 w.transport in
      let u : World asio quiche A = record w { transport = t } in
      let v = view w.transport in
      elim (Bool-cases (int_eq stream_id quiche.err_done || is_neg stream_id)) [
        | inl ended ↦
            let same : u ≡ w' = ground (arith, h, ended) in
            subst Assembled same (
              subst (λ x. Holds x u) (sym (laws.poll_ends w.conn.http3 w.transport ended))
                (at_transport-Holds t v w a))
        | inr more ↦
            elim (Option-cases
              (on_event asio quiche callbacks inner (pos_part stream_id) event u)) [
                | inl unending ↦ absurd (ground (arith, h, more, unending))
                | inr (x, handled) ↦
                    process_h3_events-Assembled fuel inner x w' (ground (arith, h, more, handled)) (
                      on_event-Assembled inner (pos_part stream_id) event v u x handled
                        (laws.poll_observes w.conn.http3 w.transport more)
                        (at_transport-Holds t v w a))
              ]
      ]
