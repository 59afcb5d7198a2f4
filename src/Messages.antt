-- ===== src/Messages.antt =====
-- The header lists that `QuicSendClient::Request` and `QuicSendServer::Respond` build, with
-- `BodyData` of include/quicsend_quiche.hpp.
pub mod RoundTrip
use quicsend.Base.{
  ℕ, ℤ, pos, pos_part, int_eq, take, List, [], ◌∷◌, Option, none, some, String, if◌then◌else◌,
}
use Prim.Native.String.{◌++◌}
use quicsend.Quiche.{Headers}
use quicsend.Connection.Streams.{quicsend_header_info}

-- `BodyData`; `none` is a null pointer, and `memory` is what `Data` points to.
pub record BodyData : Type 0 where
  pub content_type : Option String
  pub memory : Option (List ℕ)
  pub length : ℤ

-- A body that is not `Empty()`. `payload` is what `SendRequest` and `SendResponse` take for a body:
-- the first `Length` bytes, and none where `Length` is negative.
pub record Contents : Type 0 where
  pub content_type : String
  pub length : ℤ
  pub payload : List ℕ

-- What a body comes to; `none` where `Empty()` holds.
unfoldable pub contents : BodyData → Option Contents
contents body = elim body.content_type [
  | none ↦ none
  | some content_type ↦ elim body.memory [
    | none ↦ none
    | some bytes ↦
        if int_eq body.length (pos 0)
        then none
        else some (record {
          content_type = content_type;
          length = body.length;
          payload = take (pos_part body.length) bytes;
        })
  ]
]

unfoldable pub payload_of : Option Contents → List ℕ
payload_of none = []
payload_of (some body) = body.payload

abbrev pub client_agent : String
client_agent = "quicsend-client"

abbrev pub server_agent : String
server_agent = "quicsend-server"

-- `std::to_string` of a length and of a status.
module _ (to_string : ℤ → String) where
  -- `Request`: the headers of GET and of POST.
  unfoldable pub request_headers : String → String → String → String → Option Contents → Headers
  request_headers authorization host path header_info none =
      (":method", "GET")
      ∷ (":scheme", "https")
      ∷ (":authority", host)
      ∷ (":path", path)
      ∷ ("user-agent", client_agent)
      ∷ ("Authorization", authorization)
      ∷ (quicsend_header_info, header_info)
      ∷ []
  request_headers authorization host path header_info (some body) =
      (":method", "POST")
      ∷ (":scheme", "https")
      ∷ (":authority", host)
      ∷ (":path", path)
      ∷ ("user-agent", client_agent)
      ∷ ("Authorization", "Bearer " ++ authorization)
      ∷ (quicsend_header_info, header_info)
      ∷ ("content-type", body.content_type)
      ∷ ("content-length", to_string body.length)
      ∷ []

  -- `Respond`: the headers without and with a body.
  unfoldable pub response_headers : ℤ → String → Option Contents → Headers
  response_headers status header_info none =
      (":status", to_string status)
      ∷ ("server", server_agent)
      ∷ (quicsend_header_info, header_info)
      ∷ []
  response_headers status header_info (some body) =
      (":status", to_string status)
      ∷ ("server", server_agent)
      ∷ (quicsend_header_info, header_info)
      ∷ ("content-type", body.content_type)
      ∷ ("content-length", to_string body.length)
      ∷ []
