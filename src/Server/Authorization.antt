-- ===== src/Server/Authorization.antt =====
-- What the callbacks of a server connection let through to the application.
use quicsend.Base.{
  ℕ, suc, ◌+◌, ◌≡◌, refl, ap, ◌↔◌, List, [], ◌∷◌, ◌++◌, append-nil, append_assoc, inl, inr, true,
  false, some, arith, String, str_eq, eq_iff, Bool-cases, if◌then◌else◌,
}
use quicsend.Asio.{Asio}
use quicsend.Quiche.{Quiche}
use quicsend.Mailbox.{post}
use quicsend.Connection.{Event, EventType, timeout_event, data_event}
use quicsend.Connection.Streams.{IncomingStream}
use quicsend.Connection.Lifecycle.{close, close_h3}
use quicsend.Connection.TimeoutOnce.{Counted}
use quicsend.Server.{
  QuicSendServerSettings, ServerApp, ServerWorld, construct, connect_event, server_on_data,
  server_on_timeout, server_callbacks, event_authorization,
}

abbrev pub is_timeout : EventType → ℕ
is_timeout timeout_event = 1
is_timeout _ = 0

module _ {Endpoint : Type 0} where
  -- How many reports of a timeout wait in the mailbox.
  abbrev pub timeouts : List (Event Endpoint) → ℕ
  timeouts [] = 0
  timeouts (event ∷ rest) = is_timeout event.type + timeouts rest

  pub timeouts-append :
      (xs ys : List (Event Endpoint)) → timeouts (xs ++ ys) ≡ timeouts xs + timeouts ys
  timeouts-append [] ys = omega arith
  timeouts-append (x ∷ xs) ys = omega (arith, timeouts-append xs ys)

  abbrev pub timeout_reports : ServerApp Endpoint → ℕ
  timeout_reports app = timeouts app.mailbox.events

module _ (asio : Asio) (quiche : Quiche) where
  -- `Close` touches neither the application nor the flags.
  close-app :
      (reason : String) (w : ServerWorld asio quiche)
      → ((close asio quiche reason w).app ≡ w.app)
        × ((close asio quiche reason w).conn.timeout ≡ w.conn.timeout)
        × ((close asio quiche reason w).conn.connected ≡ w.conn.connected)
  unfolding close close_h3
  close-app reason w = ground arith

  -- A finished request on a connection that has not been let in: if it carries the authorization
  -- of the settings, the connection is let in, and a connect event and the request are posted; if
  -- not, nothing is posted and the connection stays out. The connect event is one constant, with
  -- the id 0, whichever connection it is about.
  pub server_on_data-first :
      (event : Event asio.Endpoint) (stream : IncomingStream) (w : ServerWorld asio quiche)
      → event.stream ≡ some stream
      → w.conn.connected ≡ false
      → let w' = server_on_data asio quiche event w in
        let passes = str_eq stream.authorization w.app.settings.authorization in
        (w'.conn.connected ≡ passes)
        × (w'.app.mailbox.events
            ≡ w.app.mailbox.events
              ++ (if passes then connect_event asio quiche ∷ event ∷ [] else []))
  unfolding server_on_data event_authorization post
  server_on_data-first event stream w e out =
      elim (Bool-cases (str_eq stream.authorization w.app.settings.authorization)) [
        | inl same ↦ rw same (
            ground (
              arith,
              append_assoc w.app.mailbox.events (connect_event asio quiche ∷ []) (event ∷ []),
            ))
        | inr other ↦
            rw other
              (ground (arith, close-app "invalid auth token" w, append-nil w.app.mailbox.events))
      ]

  -- The server that the constructor makes of any settings lets in exactly the connections whose
  -- first request has an empty authorization: the authorization of the settings is never looked
  -- at.
  pub construct-authorization :
      (settings : QuicSendServerSettings) (event : Event asio.Endpoint) (stream : IncomingStream)
      (w : ServerWorld asio quiche)
      → w.app ≡ construct settings
      → event.stream ≡ some stream
      → w.conn.connected ≡ false
      → ((server_on_data asio quiche event w).conn.connected ≡ true) ↔ (stream.authorization ≡ "")
  unfolding construct
  construct-authorization settings event stream w fresh e out =
      let (connected, _) = server_on_data-first event stream w e out in
      let unset : w.app.settings.authorization ≡ "" =
        ap (λ app. app.settings.authorization) fresh in
      rw (connected, unset) (eq_iff stream.authorization "")

  pub server-Counted : Counted (server_callbacks asio quiche) timeout_reports
  unfolding server_on_data server_on_timeout post
  server-Counted = record {
    connect_quiet = λ id e w. (refl, refl);
    data_quiet = quiet;
    timeout_counts = λ id w. counts id w;
  }
    where
      quiet :
          (event : Event asio.Endpoint) (w : ServerWorld asio quiche)
          → event.type ≡ data_event
          → (timeout_reports (server_on_data asio quiche event w).app ≡ timeout_reports w.app)
            × ((server_on_data asio quiche event w).conn.timeout ≡ w.conn.timeout)
      quiet event w e =
          let old = w.app.mailbox.events in
          let joined = old ++ connect_event asio quiche ∷ [] in
          let silent : is_timeout event.type ≡ 0 = rw e in
          ground (
            arith,
            silent,
            close-app "invalid auth token" w,
            timeouts-append old (event ∷ []),
            timeouts-append old (connect_event asio quiche ∷ []),
            timeouts-append joined (event ∷ []),
          )

      counts :
          (id : ℕ) (w : ServerWorld asio quiche)
          → timeout_reports (server_on_timeout asio quiche id w).app ≡ suc (timeout_reports w.app)
      counts id w = omega (arith, timeouts-append {Endpoint = asio.Endpoint} w.app.mailbox.events)
