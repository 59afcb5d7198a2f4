-- ===== src/Api.antt =====
-- src/quicsend_python.cpp: the C interface that the Python package calls. What Python does behind a
-- pointer to an object is not part of the repository: `PyObject_GetBuffer` is a field of the body.
pub mod Routing
pub mod Bodies
pub mod Calls
use quicsend.Base.{
  ℕ, suc, ◌+◌, ◌-◌, ◌%◌, ◌^◌, ℤ, pos, negsuc, List, [], ◌∷◌, ◌++◌, Bool, true, false, not, ◌&&◌,
  ◌||◌, Option, none, some, String, str_eq, length, ltb, ◌==◌, if◌then◌else◌,
}
use Prim.Native.String.{◌++◌ as str_append}
use quicsend.Asio.{Asio}
use quicsend.Text.{endpoint_to_string}
use quicsend.Messages.{BodyData}
use quicsend.Mailbox.{Mailbox, poll}
use quicsend.Connection.{Event, connect, timeout_event, data_event}
use quicsend.Connection
use quicsend.Connection.Streams.{IncomingStream}
use quicsend.Client.{QuicSendClientSettings}
use quicsend.Server.{QuicSendServerSettings}

-- A `const char*` that may be null, as a text.
abbrev pub or_empty : Option String → String
or_empty none = ""
or_empty (some text) = text

pub record PythonQuicSendClientSettings : Type 0 where
  pub auth_token : Option String
  pub host : Option String
  pub cert_path : Option String
  pub port : ℕ

pub record PythonQuicSendServerSettings : Type 0 where
  pub auth_token : Option String
  pub cert_path : Option String
  pub key_path : Option String
  pub port : ℕ

-- `quicsend_client_create`: what the client is constructed with, or a null pointer.
unfoldable pub quicsend_client_create : PythonQuicSendClientSettings → Option QuicSendClientSettings
quicsend_client_create settings =
    let cs : QuicSendClientSettings = record {
      authorization = str_append "Bearer " (or_empty settings.auth_token);
      host = or_empty settings.host;
      port = settings.port;
      cert_path = or_empty settings.cert_path;
    } in
    if str_eq cs.host "" || ((cs.port == 0) || str_eq cs.cert_path "") then none else some cs

-- `quicsend_server_create`.
unfoldable pub quicsend_server_create : PythonQuicSendServerSettings → Option QuicSendServerSettings
quicsend_server_create settings =
    let ss : QuicSendServerSettings = record {
      authorization = str_append "Bearer " (or_empty settings.auth_token);
      port = settings.port;
      key_path = or_empty settings.key_path;
      cert_path = or_empty settings.cert_path;
    } in
    if (ss.port == 0) || (str_eq ss.key_path "" || str_eq ss.cert_path "") then none else some ss

-- `PythonBody` as the application gives it. `object` is `Data`: a null pointer, an object without a
-- buffer, or the bytes of its buffer.
pub data PyObject : Type 0 where
  null : PyObject
  no_buffer : PyObject
  buffer : List ℕ → PyObject

pub record PythonBody : Type 0 where
  pub content_type : Option String
  pub object : PyObject

-- `static_cast<int32_t>` of a length.
abbrev pub to_int32 : ℕ → ℤ
to_int32 n = let m = n % 2 ^ 32 in if ltb m (2 ^ 31) then pos m else negsuc ((2 ^ 32 - 1) - m)

abbrev no_body : BodyData
no_body = record { content_type = none; memory = none; length = pos 0 }

-- The conversion at the head of `quicsend_client_request` and `quicsend_server_respond`.
unfoldable pub body_data : PythonBody → BodyData
body_data body = elim body.object [
  | null ↦ no_body
  | no_buffer ↦ no_body
  | buffer bytes ↦ record {
    content_type = some (or_empty body.content_type);
    memory = some bytes;
    length = to_int32 (length bytes);
  }
]

-- A memory view of bytes, or `None`.
pub data View : Type 0 where
  py_none : View
  memory_view : List ℕ → View

-- `create_python_view_object`.
unfoldable pub create_python_view_object : List ℕ → View
create_python_view_object [] = py_none
create_python_view_object (b ∷ bytes) = memory_view (b ∷ bytes)

-- `PythonRequest` and `PythonResponse`: a response has a status and no path.
pub record PythonRequest : Type 0 where
  pub connection_assigned_id : ℕ
  pub request_id : ℕ
  pub path : String
  pub header_info : String
  pub content_type : String
  pub body : View
  pub length : ℤ

pub record PythonResponse : Type 0 where
  pub connection_assigned_id : ℕ
  pub request_id : ℕ
  pub status : ℤ
  pub header_info : String
  pub content_type : String
  pub body : View
  pub length : ℤ

-- A call of a callback of the application.
pub data PythonCall : Type 0 where
  on_connect : ℕ → List ℕ → PythonCall
  on_timeout : ℕ → PythonCall
  on_request : PythonRequest → PythonCall
  on_response : PythonResponse → PythonCall

-- What the interpreter sees: the calls, oldest first, and how many references to `None` have been
-- released by `Py_DECREF` that nothing had acquired. `Py_None` is returned without a reference, and
-- a memory view with one.
pub record Python : Type 0 where
  pub calls : List PythonCall
  pub none_released : ℕ

abbrev pub released : View → ℕ
released py_none = 1
released (memory_view bytes) = 0

-- Which of the two callbacks for data `route_event` is given.
pub data Side : Type 0 where
  client_side server_side : Side

-- The endpoint of an event; one that was not set is 0.0.0.0:0.
abbrev pub endpoint_of : (asio : Asio) → Event asio.Endpoint → asio.Endpoint
endpoint_of asio event = elim event.peer_endpoint [ none ↦ asio.from_v4 0 0 | some e ↦ e ]

module _ (asio : Asio) (address_to_string : asio.Endpoint → List ℕ) (atoi : String → ℤ) where
  -- The call for a message.
  unfoldable pub message_call : Side → ℕ → IncomingStream → PythonCall
  message_call server_side connection_id stream = on_request (record {
    connection_assigned_id = connection_id;
    request_id = stream.id;
    path = stream.path;
    header_info = stream.header_info;
    content_type = stream.content_type;
    body = create_python_view_object stream.buffer;
    length = to_int32 (length stream.buffer);
  })
  message_call client_side connection_id stream = on_response (record {
    connection_assigned_id = connection_id;
    request_id = stream.id;
    status = atoi stream.status;
    header_info = stream.header_info;
    content_type = stream.content_type;
    body = create_python_view_object stream.buffer;
    length = to_int32 (length stream.buffer);
  })

  -- `route_event`. An event of a message always has its stream.
  unfoldable pub route_event : Side → Event asio.Endpoint → Python → Python
  unfolding message_call
  route_event side event py = elim event.type [
    | Connection.connect ↦ record py {
      calls =
          py.calls
          ++ on_connect event.connection_assigned_id
              (endpoint_to_string asio address_to_string (endpoint_of asio event))
            ∷ [];
    }
    | Connection.timeout_event ↦ record py {
      calls = py.calls ++ on_timeout event.connection_assigned_id ∷ [];
    }
    | Connection.data_event ↦ elim event.stream [
      | none ↦ py
      | some stream ↦ record {
        calls = py.calls ++ message_call side event.connection_assigned_id stream ∷ [];
        none_released = py.none_released + released (create_python_view_object stream.buffer);
      }
    ]
    | Connection.invalid ↦ py
  ]

  -- `quicsend_client_poll` and `quicsend_server_poll` of a pointer that is not null: the result with
  -- the mailbox and the interpreter after it. `none` is a call that goes on waiting.
  unfoldable pub quicsend_poll :
      Side
      → Bool
      → ℤ
      → Mailbox (Event asio.Endpoint)
      → Python
      → Option (ℕ × Mailbox (Event asio.Endpoint) × Python)
  quicsend_poll side is_running timeout_msec mailbox py =
      if not is_running
      then some (0, mailbox, py)
      else elim (poll (route_event side) timeout_msec mailbox py) [
        | none ↦ none
        | some (mailbox', py') ↦ some (1, mailbox', py')
      ]
