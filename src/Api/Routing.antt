-- ===== src/Api/Routing.antt =====
-- Each event of the mailbox becomes one call of the application.
use quicsend.Base.{
  ℕ, ◌+◌, ◌≡◌, refl, sym, ap, ◌∙◌, ℤ, List, [], ◌∷◌, ◌++◌, append-nil, append_assoc, Bool, none,
  some, ◌⊎◌, inl, inr, Option-cases, arith, String, length, ◌==◌, if◌then◌else◌,
}
use quicsend.Asio.{Asio}
use quicsend.Text.{endpoint_to_string}
use quicsend.Mailbox.{Mailbox, poll, each}
use quicsend.Connection
use quicsend.Connection.{Event, EventType}
use quicsend.Api.{
  Side, Python, PythonCall, on_connect, on_timeout, endpoint_of, message_call, route_event,
  quicsend_poll, create_python_view_object, released,
}

EventType-cases :
    (t : EventType)
    → (t ≡ Connection.connect)
      ⊎ ((t ≡ Connection.timeout_event) ⊎ ((t ≡ Connection.invalid) ⊎ (t ≡ Connection.data_event)))
EventType-cases Connection.connect = inl refl
EventType-cases Connection.timeout_event = inr (inl refl)
EventType-cases Connection.invalid = inr (inr (inl refl))
EventType-cases Connection.data_event = inr (inr (inr refl))

module _ {Endpoint : Type 0} where
  -- Messages with no body.
  abbrev pub is_empty_message : Event Endpoint → ℕ
  is_empty_message event = elim event.type [
    | Connection.data_event ↦ elim event.stream [
      | none ↦ 0
      | some stream ↦ if length stream.buffer == 0 then 1 else 0
    ]
    | _ ↦ 0
  ]

  abbrev pub empty_messages : List (Event Endpoint) → ℕ
  empty_messages [] = 0
  empty_messages (event ∷ rest) = is_empty_message event + empty_messages rest

module _ (asio : Asio) (address_to_string : asio.Endpoint → List ℕ) (atoi : String → ℤ) where
  -- The calls that an event is to become: one of the callback of its kind.
  abbrev pub calls_of : Side → Event asio.Endpoint → List PythonCall
  calls_of side event = elim event.type [
    | Connection.connect ↦
        on_connect event.connection_assigned_id
          (endpoint_to_string asio address_to_string (endpoint_of asio event))
        ∷ []
    | Connection.timeout_event ↦ on_timeout event.connection_assigned_id ∷ []
    | Connection.data_event ↦ elim event.stream [
      | none ↦ []
      | some stream ↦
          message_call asio address_to_string atoi side event.connection_assigned_id stream ∷ []
    ]
    | Connection.invalid ↦ []
  ]

  abbrev pub all_calls : Side → List (Event asio.Endpoint) → List PythonCall
  all_calls side [] = []
  all_calls side (event ∷ rest) = calls_of side event ++ all_calls side rest

  abbrev route : Side → Event asio.Endpoint → Python → Python
  route side = route_event asio address_to_string atoi side

  released-view :
      (bytes : List ℕ)
      → released (create_python_view_object bytes) ≡ (if length bytes == 0 then 1 else 0)
  unfolding create_python_view_object
  released-view [] = refl
  released-view (b ∷ bytes) = ground arith

  route-calls :
      (side : Side) (event : Event asio.Endpoint) (py : Python)
      → ((route side event py).calls ≡ py.calls ++ calls_of side event)
        × ((route side event py).none_released ≡ py.none_released + is_empty_message event)
  unfolding route_event
  route-calls side event py = elim (EventType-cases event.type) [
    | inl e ↦ rw (e, route_event) (refl, omega arith)
    | inr (inl e) ↦ rw (e, route_event) (refl, omega arith)
    | inr (inr (inl e)) ↦ rw (e, route_event) (sym (append-nil py.calls), omega arith)
    | inr (inr (inr e)) ↦ elim (Option-cases event.stream) [
      | inl missing ↦ rw (e, missing, route_event) (sym (append-nil py.calls), omega arith)
      | inr (stream, f) ↦ rw (e, f, route_event) (refl, omega (arith, released-view stream.buffer))
    ]
  ]

  each-route :
      (side : Side) (events : List (Event asio.Endpoint)) (py : Python)
      → ((each (route side) events py).calls ≡ py.calls ++ all_calls side events)
        × ((each (route side) events py).none_released ≡ py.none_released + empty_messages events)
  each-route side [] py = (sym (append-nil py.calls), omega arith)
  each-route side (event ∷ rest) py =
      let (calls, none_refs) = route-calls side event py in
      let (later, later_refs) = each-route side rest (route side event py) in
      (
        later
            ∙ ap (λ l. l ++ all_calls side rest) calls
            ∙ append_assoc py.calls (calls_of side event) (all_calls side rest),
        omega arith,
      )

  module _ (side : Side) (is_running : Bool) (timeout_msec : ℤ)
      (mailbox mailbox' : Mailbox (Event asio.Endpoint)) (py py' : Python) (code : ℕ) where
    -- What a poll that returns does with the events: none is lost, and none is called twice.
    abbrev Polled : Type 0
    Polled =
        (py'.calls ++ all_calls side mailbox'.events ≡ py.calls ++ all_calls side mailbox.events)
        × (py'.none_released + empty_messages mailbox'.events
            ≡ py.none_released + empty_messages mailbox.events)
        × (code ≡ (if is_running then 1 else 0))

    quicsend_poll-Polled :
        quicsend_poll asio address_to_string atoi side is_running timeout_msec mailbox py
          ≡ some (code, mailbox', py')
        → Polled
    unfolding quicsend_poll poll
    quicsend_poll-Polled h =
        let calls = each-route side mailbox.events py in
        ground (arith, calls, append-nil (each (route side) mailbox.events py).calls)

    -- A poll of the C interface that returns turns each event that it takes out of the mailbox
    -- into the call of the callback of its kind, in order: the calls made so far followed by
    -- those that the mailbox is still to become are the same before and after, and the result is
    -- 1 exactly where the client or server is running.
    pub quicsend_poll_delivers :
        quicsend_poll asio address_to_string atoi side is_running timeout_msec mailbox py
          ≡ some (code, mailbox', py')
        → (py'.calls ++ all_calls side mailbox'.events ≡ py.calls ++ all_calls side mailbox.events)
          × (code ≡ (if is_running then 1 else 0))
    quicsend_poll_delivers h = let (calls, _, result) = quicsend_poll-Polled h in (calls, result)

    -- A poll of the C interface that returns releases, for each message with an empty body that
    -- it routes, one reference to None that nothing has acquired: what has been released so far
    -- and the empty messages that wait make the same sum before and after.
    pub quicsend_poll_releases_none :
        quicsend_poll asio address_to_string atoi side is_running timeout_msec mailbox py
          ≡ some (code, mailbox', py')
        → py'.none_released + empty_messages mailbox'.events
          ≡ py.none_released + empty_messages mailbox.events
    quicsend_poll_releases_none h = (quicsend_poll-Polled h).1
