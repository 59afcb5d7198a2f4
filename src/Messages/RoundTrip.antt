-- ===== src/Messages/RoundTrip.antt =====
-- The other side reads from the headers what was put into them.
use quicsend.Base.{ℕ, ℤ, ◌≡◌, refl, sym, subst, [], ◌∷◌, Option, none, some, String}
use Prim.Native.String.{◌++◌}
use quicsend.Quiche.{Headers}
use quicsend.Connection.Streams.{quicsend_header_info, new_incoming_stream, on_header}
use quicsend.Connection.Events.{on_headers}
use quicsend.Messages.{client_agent, Contents, request_headers, response_headers}

abbrev pub sent_method : Option Contents → String
sent_method none = "GET"
sent_method (some body) = "POST"

abbrev pub sent_type : Option Contents → String
sent_type none = ""
sent_type (some body) = body.content_type

-- How HTTP/3 spells the names of the fields that `Request` sends: in lower case, as RFC 9114 wants
-- them.
pub record FieldNames : Type 0 where
  pub lower : String → String
  pub keeps_method : lower ":method" ≡ ":method"
  pub keeps_scheme : lower ":scheme" ≡ ":scheme"
  pub keeps_authority : lower ":authority" ≡ ":authority"
  pub keeps_path : lower ":path" ≡ ":path"
  pub keeps_agent : lower "user-agent" ≡ "user-agent"
  pub lowers_authorization : lower "Authorization" ≡ "authorization"
  pub keeps_info : lower quicsend_header_info ≡ quicsend_header_info
  pub keeps_type : lower "content-type" ≡ "content-type"
  pub keeps_length : lower "content-length" ≡ "content-length"

-- The headers as they arrive.
abbrev pub carried : (String → String) → Headers → Headers
carried lower [] = []
carried lower ((name, value) ∷ rest) = (lower name, value) ∷ carried lower rest

module _ (names : FieldNames) (to_string : ℤ → String) (id : ℕ) where
  open names use {lower}

  abbrev Reads : String → String → Option Contents → Headers → Type 0
  Reads path header_info body headers =
      let stream = on_headers headers (new_incoming_stream id) in
      (stream.method ≡ sent_method body)
      × (stream.path ≡ path)
      × (stream.authorization ≡ "")
      × (stream.header_info ≡ header_info)
      × (stream.content_type ≡ sent_type body)

  -- An incoming stream that takes the headers of a request of the client, in the spelling of
  -- HTTP/3, has the method GET or POST as there is a body, and the path, the header info and the
  -- content type that went in, but no authorization.
  pub on_headers-request_headers :
      (authorization host path header_info : String) (body : Option Contents)
      → Reads path header_info body
          (carried lower (request_headers to_string authorization host path header_info body))
  unfolding on_headers on_header request_headers
  on_headers-request_headers authorization host path header_info none =
      let arrive : ((":method", "GET")
            ∷ (":scheme", "https")
            ∷ (":authority", host)
            ∷ (":path", path)
            ∷ ("user-agent", client_agent)
            ∷ ("authorization", authorization)
            ∷ (quicsend_header_info, header_info)
            ∷ [])
          ≡ carried lower (request_headers to_string authorization host path header_info none) =
        λ i.
          (sym names.keeps_method i, "GET")
          ∷ (sym names.keeps_scheme i, "https")
          ∷ (sym names.keeps_authority i, host)
          ∷ (sym names.keeps_path i, path)
          ∷ (sym names.keeps_agent i, client_agent)
          ∷ (sym names.lowers_authorization i, authorization)
          ∷ (sym names.keeps_info i, header_info)
          ∷ [] in
      subst (λ (hs : Headers). Reads path header_info none hs) arrive (refl, refl, refl, refl, refl)
  on_headers-request_headers authorization host path header_info (some body) =
      let arrive : ((":method", "POST")
            ∷ (":scheme", "https")
            ∷ (":authority", host)
            ∷ (":path", path)
            ∷ ("user-agent", client_agent)
            ∷ ("authorization", "Bearer " ++ authorization)
            ∷ (quicsend_header_info, header_info)
            ∷ ("content-type", body.content_type)
            ∷ ("content-length", to_string body.length)
            ∷ [])
          ≡ carried lower
              (request_headers to_string authorization host path header_info (some body)) =
        λ i.
          (sym names.keeps_method i, "POST")
          ∷ (sym names.keeps_scheme i, "https")
          ∷ (sym names.keeps_authority i, host)
          ∷ (sym names.keeps_path i, path)
          ∷ (sym names.keeps_agent i, client_agent)
          ∷ (sym names.lowers_authorization i, "Bearer " ++ authorization)
          ∷ (sym names.keeps_info i, header_info)
          ∷ (sym names.keeps_type i, body.content_type)
          ∷ (sym names.keeps_length i, to_string body.length)
          ∷ [] in
      subst (λ (hs : Headers). Reads path header_info (some body) hs) arrive
        (refl, refl, refl, refl, refl)

module _ (to_string : ℤ → String) (id : ℕ) where
  -- An incoming stream that takes the headers of a response of the server has the status, the
  -- header info and the content type that went in.
  pub on_headers-response_headers :
      (status : ℤ) (header_info : String) (body : Option Contents)
      → let stream =
          on_headers
            (response_headers to_string status header_info body)
            (new_incoming_stream id) in
        (stream.status ≡ to_string status)
        × (stream.header_info ≡ header_info)
        × (stream.content_type ≡ sent_type body)
  unfolding on_headers on_header response_headers
  on_headers-response_headers status header_info none = (refl, refl, refl)
  on_headers-response_headers status header_info (some body) = (refl, refl, refl)
