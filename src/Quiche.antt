-- ===== src/Quiche.antt =====
-- What the code uses of the quiche library, which is not part of the repository: a connection
-- (`conn_`) with its HTTP/3 layer (`http3_`), whose memory is `State`. A call returns the result of
-- the C function with the state after it. `http3_` is a pointer: the Boolean argument of an `h3_`
-- call says whether it is not null. `Laws` has what the theorems rely on.
pub mod Laws
pub mod Arrivals
use quicsend.Base.{ℕ, ℤ, List, Bool, Option, String}
use quicsend.Sockaddr.{Sockaddr}
use quicsend.ConnectionId.{ConnectionId}

abbrev pub Headers : Type 0
Headers = List (String × String)

-- `quiche_h3_event_type`, with the headers that `quiche_h3_event_for_each_header` walks through.
pub data H3Event : Type 0 where
  headers_event : Headers → H3Event
  data_event finished_event reset_event priority_update_event goaway_event unknown_event : H3Event

pub data Shutdown : Type 0 where
  shutdown_read shutdown_write : Shutdown

-- What one call of `quiche_conn_send` wrote, and where it is to go.
pub record Packet : Type 0 where
  pub written : ℤ
  pub bytes : List ℕ
  pub to : Sockaddr
  pub to_len : ℕ

pub record Quiche : Type 1 where
  pub State : Type 0
  -- Result codes of quiche.h.
  pub err_done : ℤ
  pub h3_err_done : ℤ
  pub h3_err_stream_blocked : ℤ
  pub h3_transport_err_stream_limit : ℤ
  -- The connection: `quiche_accept` and `quiche_connect`, `none` for a null pointer.
  pub accept : ConnectionId → ConnectionId → Sockaddr × ℕ → Sockaddr × ℕ → Option State
  pub connect : ConnectionId → Sockaddr × ℕ → Sockaddr × ℕ → Option State
  pub conn_recv : List ℕ → Sockaddr × ℕ → Sockaddr × ℕ → State → ℤ × State
  pub conn_send : ℕ → State → Packet × State
  pub conn_is_established : State → Bool
  pub conn_is_closed : State → Bool
  pub conn_timeout_as_millis : State → ℕ
  pub conn_on_timeout : State → State
  pub conn_close : String → State → State
  pub conn_stream_shutdown : ℕ → Shutdown → State → State
  pub conn_peer_cert : State → List ℕ
  -- HTTP/3.
  pub h3_conn_new_with_transport : State → Bool × State
  pub h3_conn_poll : Bool → State → ℤ × H3Event × State
  pub h3_recv_body : Bool → ℕ → ℕ → State → ℤ × List ℕ × State
  pub h3_send_request : Bool → Headers → Bool → State → ℤ × State
  pub h3_send_response : Bool → ℕ → Headers → Bool → State → ℤ × State
  pub h3_send_body : Bool → ℕ → List ℕ → Bool → State → ℤ × State
  pub h3_send_goaway : Bool → ℕ → State → ℤ × State
  -- How many calls of `quiche_conn_send` can still write a packet.
  pub backlog : State → ℕ
