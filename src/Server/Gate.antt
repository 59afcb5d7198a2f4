-- ===== src/Server/Gate.antt =====
-- What `ProcessH3Events` on a connection of the server lets into the mailbox.
use quicsend.Base.{
  ℕ, zero, suc, ◌≡◌, refl, sym, ap, subst, ◌∙◌, inl, inr, List, [], ◌∷◌, ◌++◌, append_assoc, Bool,
  true, false, not, ◌||◌, some, some-injective, String, str_eq, eq_iff, arith, pos_part, is_neg,
  int_eq, Bool-cases, Option-cases, if◌then◌else◌, lookup, insert, erase,
}
use quicsend.Asio.{Asio}
use quicsend.Quiche.{
  Quiche, H3Event, headers_event, data_event, finished_event, reset_event, priority_update_event,
  goaway_event, unknown_event,
}
use quicsend.Mailbox.{post}
use quicsend.Connection.{Event}
use quicsend.Connection.Lifecycle.{close, close_h3}
use quicsend.Connection.Events.{
  get_incoming_stream, recv_loop, set_incoming, destroy_stream, on_headers_event, on_data_event,
  data_of, on_finished_event, on_event, process_h3_events,
}
use quicsend.Server.{
  ServerWorld, connect_event, event_authorization, server_on_data, server_callbacks,
}

module _ (asio : Asio) (quiche : Quiche) (before : List (Event asio.Endpoint))
    (authorization : String) where
  -- A connect event, and first of all a message with the right authorization, after what was there.
  pub record Admitted (events : List (Event asio.Endpoint)) : Type 0 where
    pub first : Event asio.Endpoint
    pub more : List (Event asio.Endpoint)
    pub posted : events ≡ before ++ connect_event asio quiche ∷ first ∷ more
    pub authorized : event_authorization asio quiche first ≡ authorization

  abbrev pub Entered : Bool → List (Event asio.Endpoint) → Type 0
  Entered false events = events ≡ before
  Entered true events = Admitted events

  abbrev pub Gate : ServerWorld asio quiche → Type 0
  Gate w =
      (w.app.settings.authorization ≡ authorization) × Entered w.conn.connected w.app.mailbox.events

  one_more :
      (event : Event asio.Endpoint) (events : List (Event asio.Endpoint))
      → Admitted events
      → Admitted (events ++ event ∷ [])
  one_more event events a = record {
    first = a.first;
    more = a.more ++ event ∷ [];
    posted =
        ap (λ (xs : List (Event asio.Endpoint)). xs ++ event ∷ []) a.posted
        ∙ append_assoc before (connect_event asio quiche ∷ a.first ∷ a.more) (event ∷ []);
    authorized = a.authorized;
  }

  Gate-if :
      (b : Bool) (w u : ServerWorld asio quiche)
      → ((b ≡ true) → Gate w)
      → ((b ≡ false) → Gate u)
      → Gate (if b then w else u)
  Gate-if true w u h k = h refl
  Gate-if false w u h k = k refl

  -- To close touches neither the mailbox nor the flag.
  close-Gate :
      (reason : String) (w : ServerWorld asio quiche) → Gate w → Gate (close asio quiche reason w)
  unfolding close close_h3
  close-Gate reason w g = ground (arith, g)

  server_on_data-Gate :
      (event : Event asio.Endpoint) (w : ServerWorld asio quiche)
      → Gate w
      → Gate (server_on_data asio quiche event w)
  unfolding server_on_data post
  server_on_data-Gate event w g =
      Gate-if w.conn.connected _ _
        (λ e.
          let a : Admitted w.app.mailbox.events =
            subst (λ b. Entered b w.app.mailbox.events) e g.1 in
          (
            g.0,
            subst (λ b. Entered b (w.app.mailbox.events ++ event ∷ [])) (sym e)
                (one_more event w.app.mailbox.events a),
          ))
        (λ e.
          let nothing : w.app.mailbox.events ≡ before =
            subst (λ b. Entered b w.app.mailbox.events) e g.1 in
          Gate-if
            (not (str_eq (event_authorization asio quiche event) w.app.settings.authorization)) _ _
            (λ wrong. close-Gate "invalid auth token" w g)
            (λ right. (
              g.0,
              record {
                first = event;
                more = [];
                posted = empty_then event nothing;
                authorized = (eq_iff _ _).0 (not_not right) ∙ g.0;
              },
            )))
    where
      not_not : {b : Bool} → not b ≡ false → b ≡ true
      not_not {b} h = ground (arith, h)

      empty_then :
          {events : List (Event asio.Endpoint)} (event : Event asio.Endpoint)
          → events ≡ before
          → (events ++ connect_event asio quiche ∷ []) ++ event ∷ []
            ≡ before ++ connect_event asio quiche ∷ event ∷ []
      empty_then {events} event e =
          append_assoc events (connect_event asio quiche ∷ []) (event ∷ [])
          ∙ ap (λ (xs : List (Event asio.Endpoint)). xs ++ connect_event asio quiche ∷ event ∷ []) e

  destroy_stream-Gate :
      (id : ℕ) (w : ServerWorld asio quiche)
      → Gate w
      → Gate (destroy_stream asio quiche (server_callbacks asio quiche) id w)
  unfolding destroy_stream
  destroy_stream-Gate id w g = g

  on_finished_event-Gate :
      (id : ℕ) (w : ServerWorld asio quiche)
      → Gate w
      → Gate (on_finished_event asio quiche (server_callbacks asio quiche) id w)
  unfolding on_finished_event set_incoming data_of
  on_finished_event-Gate id w g =
      let callbacks = server_callbacks asio quiche in
      elim (Option-cases (lookup id w.conn.incoming_streams_by_id)) [
        | inl missing ↦ rw (on_finished_event, missing) g
        | inr (stream, found) ↦
            let w' =
              set_incoming asio quiche callbacks (erase id w.conn.incoming_streams_by_id) w in
            let u = server_on_data asio quiche (data_of asio quiche callbacks stream w) w' in
            let posted = server_on_data-Gate (data_of asio quiche callbacks stream w) w' g in
            rw (on_finished_event, found)
              (Gate-if u.conn.is_server _ _ (λ e. posted) (λ e. destroy_stream-Gate id u posted))
      ]

  on_event-Gate :
      (fuel id : ℕ) (event : H3Event) (w w' : ServerWorld asio quiche)
      → on_event asio quiche (server_callbacks asio quiche) fuel id event w ≡ some w'
      → Gate w
      → Gate w'
  unfolding on_event on_headers_event on_data_event set_incoming
  on_event-Gate fuel id (headers_event headers) w w' h g = subst Gate (some-injective _ _ h) g
  on_event-Gate fuel id data_event w w' h g =
      let stream = get_incoming_stream id w.conn.incoming_streams_by_id in
      elim (Option-cases (recv_loop quiche w.conn.http3 fuel id stream w.transport)) [
        | inl unending ↦ absurd (ground (arith, h, unending))
        | inr (r, ended) ↦
            let u =
              set_incoming asio quiche (server_callbacks asio quiche)
                (insert id r.0 w.conn.incoming_streams_by_id) (record w { transport = r.1 }) in
            let same : u ≡ w' = ground (arith, h, ended) in subst Gate same g
      ]
  on_event-Gate fuel id finished_event w w' h g =
      subst Gate (some-injective _ _ h) (on_finished_event-Gate id w g)
  on_event-Gate fuel id reset_event w w' h g =
      subst Gate (some-injective _ _ h) (destroy_stream-Gate id w g)
  on_event-Gate fuel id priority_update_event w w' h g = subst Gate (some-injective _ _ h) g
  on_event-Gate fuel id goaway_event w w' h g = subst Gate (some-injective _ _ h) g
  on_event-Gate fuel id unknown_event w w' h g = subst Gate (some-injective _ _ h) g

  -- Whatever events and messages a connection of the server handles in ProcessH3Events, it keeps
  -- this: as long as the client is not let in, the mailbox is as it was; once the client is let
  -- in, the mailbox has what it had before, then a connect event, and then first of all a message
  -- whose authorization is that of the settings.
  pub process_h3_events-Gate :
      (fuel inner : ℕ) (w w' : ServerWorld asio quiche)
      → process_h3_events asio quiche (server_callbacks asio quiche) fuel inner w ≡ some w'
      → Gate w
      → Gate w'
  unfolding process_h3_events
  process_h3_events-Gate zero inner w w' h g = absurd (ground (arith, h))
  process_h3_events-Gate (suc fuel) inner w w' h g =
      let (stream_id, event, t) = quiche.h3_conn_poll w.conn.http3 w.transport in
      let u : ServerWorld asio quiche = record w { transport = t } in
      elim (Bool-cases (int_eq stream_id quiche.err_done || is_neg stream_id)) [
        | inl ended ↦ let same : u ≡ w' = ground (arith, h, ended) in subst Gate same g
        | inr more ↦
            elim (Option-cases (
              on_event asio quiche (server_callbacks asio quiche) inner (pos_part stream_id) event
                u)) [
                  | inl unending ↦ absurd (ground (arith, h, more, unending))
                  | inr (x, handled) ↦
                      process_h3_events-Gate fuel inner x w' (ground (arith, h, more, handled))
                        (on_event-Gate inner (pos_part stream_id) event u x handled g)
                ]
      ]
