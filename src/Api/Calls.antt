-- ===== src/Api/Calls.antt =====
-- The calls of the C interface on a client and on a server; `none` is a null pointer.
use quicsend.Base.{ℕ, ℤ, negsuc, List, Option, none, some, String}
use quicsend.Asio.{Asio}
use quicsend.Quiche.{Quiche, Headers}
use quicsend.Client.{ClientWorld, request}
use quicsend.Server.Dispatch.{QuicSendServer}
use quicsend.Server.Replies.{respond, server_close}
use quicsend.Api.{PythonBody, body_data, or_empty}

module _ (asio : Asio) (quiche : Quiche) (to_string : ℤ → String) where
  -- `quicsend_client_request`, with what other threads do while it sleeps.
  unfoldable pub quicsend_client_request :
      List (ClientWorld asio quiche → ClientWorld asio quiche)
      → Option String
      → Option String
      → PythonBody
      → Option (ClientWorld asio quiche)
      → Option ℤ × Option (ClientWorld asio quiche)
  quicsend_client_request others path header_info body none = (some (negsuc 0), none)
  quicsend_client_request others path header_info body (some client) =
      let (id, client') =
        request asio quiche to_string others (or_empty path) (or_empty header_info) (body_data body)
          client in
      (id, some client')

  -- `quicsend_server_respond`.
  unfoldable pub quicsend_server_respond :
      (Headers → Headers)
      → ℕ
      → ℤ
      → ℤ
      → Option String
      → PythonBody
      → Option (QuicSendServer asio quiche)
      → Option (QuicSendServer asio quiche)
  quicsend_server_respond stale connection_id request_id status header_info body none = none
  quicsend_server_respond stale connection_id request_id status header_info body (some server) =
      some (
        respond asio quiche stale to_string connection_id request_id status (or_empty header_info)
          (body_data body) server)

  -- `quicsend_server_close`.
  unfoldable pub quicsend_server_close :
      ℕ → Option (QuicSendServer asio quiche) → Option (QuicSendServer asio quiche)
  quicsend_server_close connection_id none = none
  quicsend_server_close connection_id (some server) =
      some (server_close asio quiche connection_id server)
