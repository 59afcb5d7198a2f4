-- ===== src/Examples/Transport.antt =====
-- A concrete `Quiche`: a transport with room for so many bytes, which meets the laws.
use quicsend.Base.{
  ◌≡◌, refl, ℕ, ◌-◌, List, [], ◌∷◌, ◌++◌, Bool, true, false, ◌&&◌, ◌||◌, some, arith, ℤ, pos,
  negsuc, length, take, ltb, ◌==◌, if◌then◌else◌,
}
use quicsend.Sockaddr.{sockaddr_in, htons}
use quicsend.Quiche.{Quiche, H3Event, unknown_event, Packet}
use quicsend.Quiche.Laws.{BodyLaws, SendLaws, ResponseLaws}

-- `packets` is what can still be written; `alive` and `closed` are the two flags of a connection.
pub record Link : Type 0 where
  pub taken : ℕ → List ℕ
  pub done : ℕ → Bool
  pub room : ℕ
  pub packets : ℕ
  pub alive : Bool
  pub closed : Bool
  pub events : List (ℤ × H3Event)

abbrev taken_of : Link → List ℕ → ℕ
taken_of s body = if ltb s.room (length body) then s.room else length body

-- The library refuses where there is no room at all.
abbrev send_body : Bool → ℕ → List ℕ → Bool → Link → ℤ × Link
send_body h id body fin s =
    let n = taken_of s body in
    if s.room == 0 then (negsuc 0, s) else (
      pos n,
      record s {
        taken = λ k. if id == k then s.taken k ++ take n body else s.taken k;
        done = λ k. if id == k then s.done k || (fin && (n == length body)) else s.done k;
        room = s.room - n;
      },
    )

abbrev send_packet : ℕ → Link → Packet × Link
send_packet capacity s =
    if s.packets == 0
    then (record { written = negsuc 0; bytes = []; to = sockaddr_in 0 0; to_len = 16 }, s)
    else (
      record {
        written = pos 2;
        bytes = 7 ∷ 9 ∷ [];
        to = sockaddr_in (htons 4433) 0x7f000001;
        to_len = 16;
      },
      record s { packets = s.packets - 1 },
    )

abbrev poll_event : Bool → Link → ℤ × H3Event × Link
poll_event h s = elim s.events [
  | [] ↦ (negsuc 0, unknown_event, s)
  | (id, event) ∷ rest ↦ (id, event, record s { events = rest })
]

abbrev pub idle_link : Link
idle_link = record {
  taken = λ k. [];
  done = λ k. false;
  room = 100;
  packets = 1;
  alive = true;
  closed = false;
  events = [];
}

abbrev pub link : Quiche
link = record {
  State = Link;
  err_done = negsuc 0;
  h3_err_done = negsuc 0;
  h3_err_stream_blocked = negsuc 12;
  h3_transport_err_stream_limit = negsuc 1011;
  accept = λ dcid odcid from to. some idle_link;
  connect = λ scid from to. some idle_link;
  conn_recv = λ bytes from to s. (pos (length bytes), s);
  conn_send = send_packet;
  conn_is_established = λ s. s.alive;
  conn_is_closed = λ s. s.closed;
  conn_timeout_as_millis = λ s. 25;
  conn_on_timeout = λ s. s;
  conn_close = λ reason s. record s { closed = true };
  conn_stream_shutdown = λ id how s. s;
  conn_peer_cert = λ s. 3 ∷ 5 ∷ [];
  h3_conn_new_with_transport = λ s. (true, s);
  h3_conn_poll = poll_event;
  h3_recv_body = λ h id capacity s. (negsuc 0, [], s);
  h3_send_request = λ h headers fin s. (pos 0, s);
  h3_send_response = λ h id headers fin s. (pos 0, s);
  h3_send_body = send_body;
  h3_send_goaway = λ h id s. (pos 0, s);
  backlog = λ s. s.packets;
}

pub link-BodyLaws : BodyLaws link
link-BodyLaws = record {
  accepted = λ s. s.taken;
  finished = λ s. s.done;
  body_refused = λ h id body fin s k e. ground arith;
  body_fits = λ h id body fin s. ground arith;
  body_taken = λ h id body fin s k e. ground arith;
}

pub link-SendLaws : SendLaws link
link-SendLaws = record { backlog_falls = λ capacity s e. ground arith }

pub link-finished : (s : Link) (k : ℕ) → link-BodyLaws.finished s k ≡ s.done k
unfolding link-BodyLaws
link-finished s k = refl

pub link-ResponseLaws : ResponseLaws link link-BodyLaws
unfolding link-BodyLaws
link-ResponseLaws = record {
  response_open = λ h id headers s k. refl;
  response_sends_no_body = λ h id headers fin s k. refl;
}
