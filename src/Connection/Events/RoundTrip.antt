-- ===== src/Connection/Events/RoundTrip.antt =====
-- A request and its body, from the sender's headers to the stream that the other side hands on.
use quicsend.Base.{
  ℕ, ℤ, ◌≡◌, refl, sym, ap, ◌∙◌, List, [], ◌∷◌, ◌++◌, append-nil, append_assoc, map, Option, String,
  arith,
}
use quicsend.Quiche.{Headers}
use quicsend.Quiche.Arrivals.{fields, content}
use quicsend.Connection.Streams.{IncomingStream, new_incoming_stream, on_header, on_data}
use quicsend.Connection.Events.{on_headers}
use quicsend.Connection.Events.Assembly.{assembled, message}
use quicsend.Messages.{Contents, request_headers}
use quicsend.Messages.RoundTrip.{
  FieldNames, carried, sent_method, sent_type, on_headers-request_headers,
}

-- The bytes of a body that comes in several parts.
abbrev pub joined : List (List ℕ) → List ℕ
joined [] = []
joined (part ∷ rest) = part ++ joined rest

-- Parts of a body go behind the buffer, and change nothing else.
assembled-content :
    (parts : List (List ℕ)) (stream : IncomingStream)
    → assembled (map content parts) stream
      ≡ record stream { buffer = stream.buffer ++ joined parts }
unfolding on_data
assembled-content [] stream =
    ap (λ (b : List ℕ). record stream { buffer = b }) (sym (append-nil stream.buffer))
assembled-content (part ∷ rest) stream =
    assembled-content rest (on_data part stream)
    ∙ ap (λ (b : List ℕ). record stream { buffer = b })
        (append_assoc stream.buffer part (joined rest))

-- Headers change neither the id nor the buffer.
abbrev Same : IncomingStream → IncomingStream → Type 0
Same stream stream' = (stream'.id ≡ stream.id) × (stream'.buffer ≡ stream.buffer)

on_header-Same :
    (name value : String) (stream : IncomingStream) → Same stream (on_header name value stream)
unfolding on_header
on_header-Same name value stream = ground arith

on_headers-Same :
    (headers : Headers) (stream : IncomingStream) → Same stream (on_headers headers stream)
unfolding on_headers
on_headers-Same [] stream = (refl, refl)
on_headers-Same ((name, value) ∷ rest) stream =
    let first = on_header-Same name value stream in
    let others = on_headers-Same rest (on_header name value stream) in
    (others.0 ∙ first.0, others.1 ∙ first.1)

-- If the names of the headers arrive in lower case, then the message of a stream whose pieces are
-- the headers of a request of the client and then any parts of a body has the id of the stream,
-- the method GET or POST as there is a body, and the path, the header info and the content type
-- that went in. Its authorization is empty, whatever that of the settings is. Its buffer is the
-- parts joined.
pub message-request_headers :
    (names : FieldNames) (to_string : ℤ → String) (id : ℕ)
    (authorization host path header_info : String) (body : Option Contents) (parts : List (List ℕ))
    → let headers =
        carried names.lower (request_headers to_string authorization host path header_info body) in
      let stream = message (id, fields headers ∷ map content parts) in
      (stream.id ≡ id)
      × (stream.method ≡ sent_method body)
      × (stream.path ≡ path)
      × (stream.authorization ≡ "")
      × (stream.header_info ≡ header_info)
      × (stream.content_type ≡ sent_type body)
      × (stream.buffer ≡ joined parts)
message-request_headers names to_string id authorization host path header_info body parts =
    let headers =
      carried names.lower (request_headers to_string authorization host path header_info body) in
    let start = on_headers headers (new_incoming_stream id) in
    let read =
      on_headers-request_headers names to_string id authorization host path header_info body in
    let kept = on_headers-Same headers (new_incoming_stream id) in
    ground (arith, assembled-content parts start, read, kept)
