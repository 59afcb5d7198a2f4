-- ===== src/Connection/Egress.antt =====
-- `QuicheConnection::FlushEgress` and `QuicheConnection::TickTimeout`, and the handler of the timer
-- that the latter sets.
pub mod Termination
pub mod Packets
pub mod Buffers
use quicsend.Base.{
  ℕ, zero, suc, ◌⊎◌, inl, inr, Bool, true, false, ◌||◌, Option, none, some, pos_part, is_neg,
  int_eq, take, ◌==◌, if◌then◌else◌,
}
use quicsend.Asio.{Asio}
use quicsend.Quiche.{Quiche}
use quicsend.Sockaddr.{sockaddr_to_endpoint}
use quicsend.Allocator.{Socket, allocate, free, fill, send, max_datagram_send_size}
use quicsend.Connection.{Connection, World, Callbacks}
use quicsend.Connection.Responses.{flush_cached_responses}
use quicsend.Connection.Transfers.{flush_transfers}

-- How the loop of `FlushEgress` ends: quiche has no packet left, or fails to write one;
-- `sockaddr_to_endpoint` throws; or, of the model alone, the fuel is used up.
pub data Ending : Type 0 where
  drained failed threw starved : Ending

module _ (asio : Asio) (quiche : Quiche) where
  open quiche use {State, conn_send, err_done, backlog}

  -- `buffer` of `FlushEgress`, and the memory that the loop works on.
  pub record Flow : Type 0 where
    pub buffer : Option ℕ
    pub sent : Bool
    pub socket : Socket asio.Endpoint
    pub transport : State

  unfoldable pub take_buffer : Socket asio.Endpoint → ℕ × Socket asio.Endpoint
  take_buffer socket =
      let (b, allocator) = allocate socket.allocator in (b, record socket { allocator = allocator })

  -- `if (!buffer) buffer = Allocate()`.
  unfoldable pub with_buffer : Flow → ℕ × Socket asio.Endpoint
  unfolding take_buffer
  with_buffer flow = elim flow.buffer [ some b ↦ (b, flow.socket) | none ↦ take_buffer flow.socket ]

  -- One round, from the packet that quiche wrote: `inl` goes on.
  unfoldable pub egress_round : Flow → Flow ⊎ (Ending × Flow)
  unfolding take_buffer with_buffer
  egress_round flow =
      let (b, socket) = with_buffer flow in
      let (packet, transport) = conn_send max_datagram_send_size flow.transport in
      let flow' : Flow = record {
        buffer = some b;
        sent = flow.sent;
        socket = socket;
        transport = transport;
      } in
      if int_eq packet.written err_done
      then inr (drained, flow')
      else if is_neg packet.written
      then inr (failed, flow')
      else let filled = fill b (take (pos_part packet.written) packet.bytes) socket in
        elim (sockaddr_to_endpoint asio packet.to packet.to_len) [
          | none ↦ inr (threw, record flow' { socket = filled })
          | some dest ↦
              let (b', socket') = take_buffer (send b dest filled) in
              inl (record flow' { buffer = some b'; sent = true; socket = socket' })
        ]

  -- The loop.
  unfoldable pub egress_loop : ℕ → Flow → Ending × Flow
  egress_loop zero flow = (starved, flow)
  egress_loop (suc fuel) flow = elim (egress_round flow) [
    | inl flow' ↦ egress_loop fuel flow'
    | inr ended ↦ ended
  ]

module _ (asio : Asio) (quiche : Quiche) {A : Type 0} (callbacks : Callbacks asio quiche A) where
  open quiche use {backlog, conn_is_closed, conn_timeout_as_millis, conn_on_timeout}

  abbrev set_conn : Connection asio.Endpoint → World asio quiche A → World asio quiche A
  set_conn conn w = record w { conn = conn }

  -- `TickTimeout` where quiche has closed the connection.
  unfoldable pub report_closed : World asio quiche A → World asio quiche A
  report_closed w =
      let w' = if w.conn.timeout then w else callbacks.on_timeout w.conn.assigned_id w in
      record w' { conn = record w'.conn { timeout = true } }

  -- `TickTimeout`.
  unfoldable pub tick_timeout : World asio quiche A → World asio quiche A
  unfolding report_closed
  tick_timeout w =
      if conn_is_closed w.transport
      then report_closed w
      else if w.conn.timer_set
      then w
      else let timeout_msec = conn_timeout_as_millis w.transport in
        if timeout_msec == 0
        then record w { transport = conn_on_timeout w.transport }
        else record w {
          conn = record w.conn { quiche_timer = some timeout_msec; timer_set = true };
        }

  -- The two calls with which `FlushEgress` begins.
  unfoldable pub flush_bodies : World asio quiche A → World asio quiche A
  flush_bodies w =
      let (cache, t) =
        flush_cached_responses quiche w.conn.http3 w.conn.response_cache w.transport in
      let (streams, t') = flush_transfers quiche w.conn.http3 w.conn.outgoing_streams_by_id t in
      record w {
        conn = record w.conn { response_cache = cache; outgoing_streams_by_id = streams };
        transport = t';
      }

  -- The loop on the world, with fuel for every packet that quiche can still write, and one round
  -- for the result that says so.
  unfoldable pub drain :
      Option ℕ → World asio quiche A → Ending × Option ℕ × Bool × World asio quiche A
  drain buffer w =
      let flow : Flow asio quiche = record {
        buffer = buffer;
        sent = false;
        socket = w.socket;
        transport = w.transport;
      } in
      let (ending, flow') = egress_loop asio quiche (suc (backlog w.transport)) flow in
      (
        ending,
        flow'.buffer,
        flow'.sent,
        record w { socket = flow'.socket; transport = flow'.transport },
      )

  -- `bool FlushEgress(std::shared_ptr<SendBuffer>& buffer)`: the timeout is looked at only where the
  -- loop ended by `break`.
  unfoldable pub flush_egress_with :
      Option ℕ → World asio quiche A → Ending × Option ℕ × Bool × World asio quiche A
  unfolding drain
  flush_egress_with buffer w =
      let (ending, buffer', sent, w') = drain buffer (flush_bodies w) in
      elim ending [
        | drained ↦ (drained, buffer', sent, tick_timeout w')
        | other ↦ (other, buffer', sent, w')
      ]

  unfoldable pub free_buffer : Option ℕ → World asio quiche A → World asio quiche A
  free_buffer none w = w
  free_buffer (some b) w = record w {
    socket = record w.socket { allocator = free b w.socket.allocator };
  }

  -- `FlushEgress()`, which frees its buffer, unless an exception passes through it.
  unfoldable pub flush_egress : World asio quiche A → Bool × World asio quiche A
  unfolding free_buffer
  flush_egress w =
      let (ending, buffer, sent, w') = flush_egress_with none w in
      elim ending [ threw ↦ (sent, w') | _ ↦ (sent, free_buffer buffer w') ]

  -- The handler of `quiche_timer_`; `ec` says that the wait was broken off.
  unfoldable pub on_quiche_timer : Bool → World asio quiche A → World asio quiche A
  on_quiche_timer ec w =
      let w' : World asio quiche A = record w {
        conn = record w.conn { timer_set = false; quiche_timer = none };
      } in
      if ec || w.conn.timeout
      then w'
      else (flush_egress (record w' { transport = conn_on_timeout w'.transport })).1
