-- ===== src/Server/Replies/Reachable.antt =====
-- The server through any sequence of datagrams, passes, responses and closings.
use quicsend.Base.{
  ℕ, ℤ, zero, suc, ◌≤◌, ◌<◌, ◌^◌, ◌≡◌, refl, subst, Bool, true, false, inl, inr, List, Option,
  arith, String, All, Option-cases, lookup, if◌then◌else◌,
}
use quicsend.ConnectionId.{ConnectionId}
use quicsend.Asio.{Asio}
use quicsend.Quiche.{Quiche, Headers}
use quicsend.Allocator.{Socket}
use quicsend.Connection.Lifecycle.{close}
use quicsend.Messages.{BodyData}
use quicsend.Sender.{Handle, Sender, find_id, tick}
use quicsend.Sender.Registry.{tick-Paired}
use quicsend.Sender.Pass.{pass-All}
use quicsend.Server.{QuicSendServerSettings, ServerWorld}
use quicsend.Server.Dispatch.{Packets, handled, new_server, server_on_datagram}
use quicsend.Server.Dispatch.Admission.{
  Keeps-Numbered, Server, Numbered, server_on_datagram-Numbered, server_on_datagram-Decided,
}
use quicsend.Server.Replies.{
  with_link, answer, server_close, respond, Pass, is_closed, flush_link, server_tick,
}

module _ (asio : Asio) (quiche : Quiche) (reread : Handle → Pass asio quiche → ℕ) where
  -- What the threads of the program do with the server: a datagram that is handled, a pass of the
  -- sending thread, and the calls of the application.
  pub data Step (server : Server asio quiche) : Server asio quiche → Type 0 where
    datagram :
        (packets : Packets) (fuel inner : ℕ) (new_scid scratch : ConnectionId) (bytes : List ℕ)
        (peer : asio.Endpoint) {server' : Server asio quiche}
        → server_on_datagram asio quiche packets fuel inner new_scid scratch bytes peer server
          ≡ handled server'
        → Step server server'
    passes :
        (buffer buffer' : Option ℕ) {server' : Server asio quiche}
        → server_tick asio quiche reread buffer server ≡ handled (buffer', server')
        → Step server server'
    responds :
        (stale : Headers → Headers) (to_string : ℤ → String) (id : ℕ) (request_id status : ℤ)
        (header_info : String) (body : BodyData)
        → Step server
            (respond asio quiche stale to_string id request_id status header_info body server)
    closes : (id : ℕ) → Step server (server_close asio quiche id server)

  -- So many steps, one after the other.
  pub data Steps (server : Server asio quiche) : ℕ → Server asio quiche → Type 0 where
    none_yet : Steps server zero server
    and_then :
        {n : ℕ} {u v : Server asio quiche} → Steps server n u → Step u v → Steps server (suc n) v

  -- The maps agree, and the numbers in them are apart and at most `n`.
  pub record Holds (n : ℕ) (server : Server asio quiche) : Type 0 where
    pub numbered : Numbered asio quiche server
    pub few : server.next_assigned_id ≤ n

  Holds-suc : (n : ℕ) (server : Server asio quiche) → Holds n server → Holds (suc n) server
  Holds-suc n server h = record { numbered = h.numbered; few = omega (arith, h.few) }

  datagram-Holds :
      (packets : Packets) (fuel inner : ℕ) (new_scid scratch : ConnectionId) (bytes : List ℕ)
      (peer : asio.Endpoint) (server server' : Server asio quiche) (n : ℕ)
      → server_on_datagram asio quiche packets fuel inner new_scid scratch bytes peer server
        ≡ handled server'
      → suc n < 2 ^ 64
      → Holds n server
      → Holds (suc n) server'
  datagram-Holds packets fuel inner new_scid scratch bytes peer server server' n h fits holds =
      record {
        numbered =
            server_on_datagram-Numbered asio quiche packets fuel inner new_scid scratch bytes peer
              server server' (omega (arith, holds.few)) holds.numbered h;
        few =
            elim (server_on_datagram-Decided asio quiche packets fuel inner new_scid scratch bytes
              peer server server' h) [
                | inl (_, same) ↦ omega (arith, same, holds.few)
                | inr (c, _, _, inl (_, inl same)) ↦ omega (arith, same, holds.few)
                | inr (c, _, _, inl (_, inr next)) ↦ omega (arith, next, holds.few)
                | inr (c, _, _, inr (_, next)) ↦ omega (arith, next, holds.few)
              ];
      }

  -- A call that leaves the maps and the numbers.
  call-Holds :
      (server server' : Server asio quiche) (n : ℕ)
      → server'.sender ≡ server.sender
      → server'.next_assigned_id ≡ server.next_assigned_id
      → Holds n server
      → Holds (suc n) server'
  call-Holds server server' n kept next holds = record {
    numbered = Keeps-Numbered asio quiche server server' (kept, next) holds.numbered;
    few = omega (arith, next, holds.few);
  }

  link-Holds :
      (qc : Handle) (method : ServerWorld asio quiche → ServerWorld asio quiche)
      (server : Server asio quiche) (n : ℕ)
      → Holds n server
      → Holds (suc n) (record server { host = with_link asio quiche qc method server.host })
  link-Holds qc method server n holds =
      call-Holds server (record server { host = with_link asio quiche qc method server.host }) n
        refl refl holds

  Holds-if :
      (b : Bool) (s t : Server asio quiche) (n : ℕ)
      → Holds n s
      → Holds n t
      → Holds n (if b then s else t)
  Holds-if true s t n h k = h
  Holds-if false s t n h k = k

  respond-Holds :
      (stale : Headers → Headers) (to_string : ℤ → String) (id : ℕ) (request_id status : ℤ)
      (header_info : String) (body : BodyData) (server : Server asio quiche) (n : ℕ)
      → Holds n server
      → Holds
          (suc n)
          (respond asio quiche stale to_string id request_id status header_info body server)
  unfolding respond
  respond-Holds stale to_string id request_id status header_info body server n holds =
      Holds-if server.closed server _ (suc n) (Holds-suc n server holds)
        (elim (Option-cases (find_id id server.sender)) [
          | inl missing ↦ rw (missing, respond) (Holds-suc n server holds)
          | inr (qc, e) ↦
              rw (e, respond)
                (link-Holds qc
                  (answer asio quiche stale to_string request_id status header_info body) server n
                  holds)
        ])

  server_close-Holds :
      (id : ℕ) (server : Server asio quiche) (n : ℕ)
      → Holds n server
      → Holds (suc n) (server_close asio quiche id server)
  unfolding server_close
  server_close-Holds id server n holds = elim (Option-cases (find_id id server.sender)) [
    | inl missing ↦ rw (missing, server_close) (Holds-suc n server holds)
    | inr (qc, e) ↦ rw (e, server_close) (link-Holds qc (close asio quiche "exit") server n holds)
  ]

  module _ (buffer buffer' : Option ℕ) (server server' : Server asio quiche) (n : ℕ) where
    abbrev before : Pass asio quiche
    before = record { buffer = buffer; has_thrown = false; host = server.host }

    abbrev after : Sender × Bool × Pass asio quiche
    after = tick reread (is_closed asio quiche) (flush_link asio quiche) server.sender before

    tick-All {ℓ} :
        (Q : ConnectionId × Handle → Type ℓ)
        → All Q server.sender.connections
        → All Q after.0.connections
    unfolding tick
    tick-All Q =
        pass-All reread (is_closed asio quiche) (flush_link asio quiche) Q server.sender.connections
          server.sender.connections_by_id false before

    server_tick-Holds :
        ((qc : Handle) (u : Pass asio quiche) → reread qc u ≡ qc.assigned_id)
        → server_tick asio quiche reread buffer server ≡ handled (buffer', server')
        → Holds n server
        → Holds (suc n) server'
    unfolding server_tick
    server_tick-Holds right h holds =
        let left : Server asio quiche = record server { host = after.2.host; sender = after.0 } in
        let same : left ≡ server' = ground arith in
        subst (Holds (suc n)) same (record {
          numbered = record {
            paired =
                tick-Paired reread (is_closed asio quiche) (flush_link asio quiche) right
                  server.sender before holds.numbered.paired;
            up_to = tick-All (λ e. e.1.assigned_id ≤ server.next_assigned_id) holds.numbered.up_to;
          };
          few = omega (arith, holds.few);
        })

  Step-Holds :
      (right : (qc : Handle) (u : Pass asio quiche) → reread qc u ≡ qc.assigned_id)
      {server server' : Server asio quiche} (n : ℕ)
      → suc n < 2 ^ 64
      → Step server server'
      → Holds n server
      → Holds (suc n) server'
  Step-Holds right {server} {server'} n fits
        (datagram packets fuel inner new_scid scratch bytes peer h) holds =
      datagram-Holds packets fuel inner new_scid scratch bytes peer server server' n h fits holds
  Step-Holds right {server} {server'} n fits (passes buffer buffer' h) holds =
      server_tick-Holds buffer buffer' server server' n right h holds
  Step-Holds right {server} n fits (responds stale to_string id request_id status header_info body)
        holds =
      respond-Holds stale to_string id request_id status header_info body server n holds
  Step-Holds right {server} n fits (closes id) holds = server_close-Holds id server n holds

  new_server-Holds :
      (settings : QuicSendServerSettings) (socket : Socket asio.Endpoint)
      → Holds 0 (new_server asio quiche settings socket)
  unfolding new_server lookup
  new_server-Holds settings socket = record {
    numbered = record { paired = record { same = λ id. refl; distinct = tt }; up_to = tt };
    few = omega arith;
  }

  -- If what a pass reads from the nodes that it has erased is still the number of the connection,
  -- then from the server as it is constructed, after any sequence of fewer than 2 ^ 64 steps,
  -- each of which is a datagram that is handled, a pass of the sending thread that throws
  -- nothing, a response or a closing: the map by numbers finds exactly the connections of the map
  -- by connection ids, no number is assigned twice, and none exceeds the count of the steps.
  pub Steps-Holds :
      ((qc : Handle) (u : Pass asio quiche) → reread qc u ≡ qc.assigned_id)
      → (settings : QuicSendServerSettings) (socket : Socket asio.Endpoint) (n : ℕ)
        (server : Server asio quiche)
      → n < 2 ^ 64
      → Steps (new_server asio quiche settings socket) n server
      → Holds n server
  Steps-Holds right settings socket zero server fits none_yet = new_server-Holds settings socket
  Steps-Holds right settings socket (suc n) server fits (and_then {u = u} steps st) =
      Step-Holds right n fits st (Steps-Holds right settings socket n u (omega arith) steps)
