-- ===== src/Connection/Streams.antt =====
-- `IncomingStream`, `OutgoingStream` and `CachedResponse` of include/quicsend_quiche.hpp, and the
-- methods of the first.
use quicsend.Base.{ℕ, List, [], ◌++◌, String, str_eq, if◌then◌else◌}
use quicsend.Quiche.{Headers}

pub record IncomingStream : Type 0 where
  pub id : ℕ
  pub method : String
  pub path : String
  pub status : String
  pub authorization : String
  pub content_type : String
  pub header_info : String
  pub buffer : List ℕ

pub record OutgoingStream : Type 0 where
  pub id : ℕ
  pub send_offset : ℕ
  pub buffer : List ℕ

-- `body` is empty where `data` is a null pointer. `headers` is what the pointers of `Headers` lead to
-- when the response is flushed, after the caller has freed the strings that they point into.
pub record CachedResponse : Type 0 where
  pub stream_id : ℕ
  pub headers : Headers
  pub body : List ℕ
  pub bytes_left : ℕ

abbrev pub quicsend_header_info : String
quicsend_header_info = "quicsend-header-info"

-- A default-constructed stream with its id.
abbrev pub new_incoming_stream : ℕ → IncomingStream
new_incoming_stream stream_id = record {
  id = stream_id;
  method = "";
  path = "";
  status = "";
  authorization = "";
  content_type = "";
  header_info = "";
  buffer = [];
}

-- `IncomingStream::OnHeader`.
unfoldable pub on_header : String → String → IncomingStream → IncomingStream
on_header name value stream =
    if str_eq name ":method"
    then record stream { method = value }
    else if str_eq name ":path"
    then record stream { path = value }
    else if str_eq name ":status"
    then record stream { status = value }
    else if str_eq name "Authorization"
    then record stream { authorization = value }
    else if str_eq name "content-type"
    then record stream { content_type = value }
    else if str_eq name quicsend_header_info
    then record stream { header_info = value }
    else stream

-- `IncomingStream::OnData`.
unfoldable pub on_data : List ℕ → IncomingStream → IncomingStream
on_data bytes stream = record stream { buffer = stream.buffer ++ bytes }
