-- ===== src/Connection/Events/Posted.antt =====
-- The messages among the events that callbacks have posted.
use quicsend.Base.{◌≡◌, List, [], ◌∷◌, ◌++◌, some, none, arith}
use quicsend.Connection
use quicsend.Connection.{Event, EventType}
use quicsend.Connection.Streams.{IncomingStream}

-- The messages among the events of a mailbox.
abbrev pub messages_in : {Endpoint : Type 0} → List (Event Endpoint) → List IncomingStream
messages_in [] = []
messages_in (event ∷ rest) = elim event.type [
  | Connection.data_event ↦ elim event.stream [
    | none ↦ messages_in rest
    | some stream ↦ stream ∷ messages_in rest
  ]
  | _ ↦ messages_in rest
]

pub messages_in-post :
    {Endpoint : Type 0} (event : Event Endpoint) (stream : IncomingStream)
    (events : List (Event Endpoint))
    → event.type ≡ Connection.data_event
    → event.stream ≡ some stream
    → messages_in (events ++ event ∷ []) ≡ messages_in events ++ stream ∷ []
messages_in-post event stream [] e f = ground (arith, e, f)
messages_in-post event stream (first ∷ rest) e f =
    ground (arith, messages_in-post event stream rest e f)
