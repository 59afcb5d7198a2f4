-- ===== src/Server/Dispatch/Admission.antt =====
-- Which connections `QuicSendServer::OnDatagram` makes, and how they are numbered.
use quicsend.Base.{
  ℕ, suc, ◌≤◌, ◌<◌, ◌^◌, ◌≡◌, refl, ◌⊎◌, inl, inr, List, [], ◌∷◌, none, arith, All, IsByte,
  Bool-cases, Option-cases, length, ◌==◌,
}
use quicsend.ConnectionId.{ConnectionId, IsValid, cid_eq}
use quicsend.Asio.{Asio}
use quicsend.Quiche.{Quiche}
use quicsend.Token.{Verdict, rejected, accepted, overrun, bad_address_cast, read_token}
use quicsend.Token.Validation.{TokenOf, accepted_token}
use quicsend.Sender.{Handle, find_dcid, add, assign}
use quicsend.Sender.Registry.{Connections, Unnumbered, Paired, add-Paired}
use quicsend.Server.Dispatch.{
  Packets, Header, handled, QuicSendServer, accept, deliver, admit, register, send_retry, greet,
  server_on_datagram, next_id,
}

pub Token-cases :
    (v : Verdict)
    → ((c : ConnectionId) × (v ≡ accepted c))
      ⊎ ((v ≡ rejected) ⊎ ((v ≡ overrun) ⊎ (v ≡ bad_address_cast)))
Token-cases (accepted c) = inl (c, refl)
Token-cases rejected = inr (inl refl)
Token-cases overrun = inr (inr (inl refl))
Token-cases bad_address_cast = inr (inr (inr refl))

module _ (asio : Asio) (quiche : Quiche) where
  abbrev pub Server : Type 0
  Server = QuicSendServer asio quiche

  -- What a connection does with its datagram leaves the maps and the numbers alone.
  abbrev pub Keeps : Server → Server → Type 0
  Keeps server server' =
      (server'.sender ≡ server.sender) × (server'.next_assigned_id ≡ server.next_assigned_id)

  deliver-Keeps :
      (fuel inner : ℕ) (bytes : List ℕ) (peer : asio.Endpoint) (qc : Handle)
      (server server' : Server)
      → deliver asio quiche fuel inner bytes peer qc server ≡ handled server'
      → Keeps server server'
  unfolding deliver
  deliver-Keeps fuel inner bytes peer qc server server' h = ground arith

  -- Numbers up to the last that was assigned.
  abbrev pub UpTo : ℕ → Connections → Type 0
  UpTo n cs = All (λ e. e.1.assigned_id ≤ n) cs

  UpTo-Unnumbered : (n : ℕ) (cs : Connections) → UpTo n cs → Unnumbered (suc n) cs
  UpTo-Unnumbered n [] u = tt
  UpTo-Unnumbered n ((key, qc) ∷ rest) u = (ground (arith, u.0), UpTo-Unnumbered n rest u.1)

  UpTo-suc : (n : ℕ) (cs : Connections) → UpTo n cs → UpTo (suc n) cs
  UpTo-suc n [] u = tt
  UpTo-suc n ((key, qc) ∷ rest) u = (ground (arith, u.0), UpTo-suc n rest u.1)

  UpTo-assign :
      (n : ℕ) (qc : Handle) (dcid : ConnectionId) (cs : Connections)
      → qc.assigned_id ≤ n
      → UpTo n cs
      → UpTo n (assign dcid qc cs)
  unfolding assign
  UpTo-assign n qc dcid [] l u = (l, tt)
  UpTo-assign n qc dcid ((key, old) ∷ rest) l u = elim (Bool-cases (cid_eq key dcid)) [
    | inl found ↦ rw found (l, u.1)
    | inr other ↦ rw other (u.0, UpTo-assign n qc dcid rest l u.1)
  ]

  -- The two maps agree, and no connection has a number that is still to be assigned.
  pub record Numbered (server : Server) : Type 0 where
    pub paired : Paired server.sender
    pub up_to : UpTo server.next_assigned_id server.sender.connections

  pub Keeps-Numbered :
      (server server' : Server) → Keeps server server' → Numbered server → Numbered server'
  Keeps-Numbered server server' (same, next) n = record {
    paired = rw same n.paired;
    up_to = rw (same, next) n.up_to;
  }

  module _ (dcid : ConnectionId) (server : Server) where
    -- The connection that is made.
    abbrev pub newcomer : Handle
    newcomer = record {
      address = server.fresh;
      assigned_id = next_id asio quiche server;
      dcid = dcid;
    }

    -- A call that has made no connection, or has added one to the maps.
    abbrev pub AddsAtMost : Server → Type 0
    AddsAtMost server' =
        ((server'.sender ≡ server.sender)
          × ((server'.next_assigned_id ≡ server.next_assigned_id)
              ⊎ (server'.next_assigned_id ≡ next_id asio quiche server)))
        ⊎ ((server'.sender ≡ add newcomer server.sender)
            × (server'.next_assigned_id ≡ next_id asio quiche server))

    module _ (fuel inner : ℕ) (bytes : List ℕ) (peer : asio.Endpoint) where
      admit-AddsAtMost :
          (odcid : ConnectionId) (server' : Server)
          → admit asio quiche fuel inner bytes peer dcid odcid server ≡ handled server'
          → AddsAtMost server'
      unfolding admit register
      admit-AddsAtMost odcid server' h =
          elim (Option-cases (accept asio quiche peer dcid odcid server.host)) [
            | inl threw ↦ absurd (ground arith)
            | inr (made, e) ↦ elim (Option-cases made) [
              | inl null ↦ inl (ground arith)
              | inr (transport, e') ↦
                  let server₁ = (register asio quiche dcid transport server).1 in
                  let delivered : deliver asio quiche fuel inner bytes peer newcomer server₁
                      ≡ handled server' =
                    ground arith in
                  inr (deliver-Keeps fuel inner bytes peer newcomer server₁ server' delivered)
            ]
          ]

  AddsAtMost-Numbered :
      (dcid : ConnectionId) (server server' : Server)
      → suc server.next_assigned_id < 2 ^ 64
      → find_dcid dcid server.sender.connections ≡ none
      → Numbered server
      → AddsAtMost dcid server server'
      → Numbered server'
  unfolding add
  AddsAtMost-Numbered dcid server server' fits missing n (inl (same, inl next)) =
      Keeps-Numbered server server' (same, next) n
  AddsAtMost-Numbered dcid server server' fits missing n (inl (same, inr next)) =
      let n' = server.next_assigned_id in
      let id : next_id asio quiche server ≡ suc n' = omega arith in
      record {
        paired = rw same n.paired;
        up_to = rw (same, next, id) (UpTo-suc n' server.sender.connections n.up_to);
      }
  AddsAtMost-Numbered dcid server server' fits missing n (inr (added, next)) =
      let n' = server.next_assigned_id in
      let cs = server.sender.connections in
      let qc = newcomer dcid server in
      let id : next_id asio quiche server ≡ suc n' = omega arith in
      let u : Unnumbered qc.assigned_id cs = rw id (UpTo-Unnumbered n' cs n.up_to) in
      let v : UpTo qc.assigned_id cs = rw id (UpTo-suc n' cs n.up_to) in
      record {
        paired = rw added (add-Paired qc server.sender missing u n.paired);
        up_to = rw (added, next) (UpTo-assign qc.assigned_id qc dcid cs (omega arith) v);
      }

  module _ (packets : Packets) (fuel inner : ℕ) (new_scid scratch : ConnectionId) (bytes : List ℕ)
      (peer : asio.Endpoint) (server : Server) where
    abbrev pub header : Header
    header = (packets.header_info bytes).1

    -- Either the maps and the numbers are as before, or the connection id was unknown and the token
    -- was accepted.
    abbrev pub Decided : Server → Type 0
    Decided server' =
        Keeps server server'
        ⊎ ((c : ConnectionId) × (find_dcid header.dcid server.sender.connections ≡ none)
            × (read_token asio header.token peer scratch ≡ accepted c)
            × AddsAtMost header.dcid server server')

    greet-Decided :
        (server' : Server)
        → find_dcid header.dcid server.sender.connections ≡ none
        → greet asio quiche packets fuel inner new_scid scratch bytes header peer server
          ≡ handled server'
        → Decided server'
    unfolding greet send_retry
    greet-Decided server' missing h =
        elim (Bool-cases (packets.version_is_supported header.version)) [
          | inr unknown ↦ inl (ground arith)
          | inl known ↦ elim (Bool-cases (length header.token == 0)) [
            | inl empty ↦ inl (ground arith)
            | inr given ↦ elim (Token-cases (read_token asio header.token peer scratch)) [
              | inl (c, e) ↦
                  let admitted : admit asio quiche fuel inner bytes peer header.dcid c server
                      ≡ handled server' =
                    ground arith in
                  inr (
                    c,
                    missing,
                    e,
                    admit-AddsAtMost header.dcid server fuel inner bytes peer c server' admitted,
                  )
              | inr (inl refused) ↦ inl (ground arith)
              | inr (inr (inl past)) ↦ inl (ground arith)
              | inr (inr (inr cast)) ↦ inl (ground arith)
            ]
          ]
        ]

    pub server_on_datagram-Decided :
        (server' : Server)
        → server_on_datagram asio quiche packets fuel inner new_scid scratch bytes peer server
          ≡ handled server'
        → Decided server'
    unfolding server_on_datagram
    server_on_datagram-Decided server' h =
        elim (Option-cases (find_dcid header.dcid server.sender.connections)) [
          | inl missing ↦ ground (arith, greet-Decided server' missing)
          | inr (qc, e) ↦ ground (arith, deliver-Keeps fuel inner bytes peer qc server server')
        ]

    -- If the server handles a datagram to its end, then its maps of connections are as before, or
    -- it has added one connection, under the connection id of the packet, and the token of the
    -- packet names the port and the address of the endpoint that sent it. The memory of odcid
    -- holds any sixteen bytes, and the token consists of bytes.
    pub server_on_datagram-admits :
        (server' : Server)
        → IsValid scratch
        → All IsByte header.token
        → server_on_datagram asio quiche packets fuel inner new_scid scratch bytes peer server
          ≡ handled server'
        → (server'.sender ≡ server.sender)
          ⊎ ((server'.sender ≡ add (newcomer header.dcid server) server.sender)
              × (c : ConnectionId) × TokenOf asio peer c header.token)
    server_on_datagram-admits server' v b h = elim (server_on_datagram-Decided server' h) [
      | inl (same, _) ↦ inl same
      | inr (c, missing, read, inl (same, _)) ↦ inl same
      | inr (c, missing, read, inr (added, _)) ↦
          inr (added, c, accepted_token asio peer header.token scratch c v b read)
    ]

    -- A datagram that the server handles to its end keeps this: the map by numbers finds exactly
    -- the connections of the map by connection ids, no number is assigned twice, and none exceeds
    -- the last that was assigned. Fewer than 2 ^ 64 - 1 numbers have been assigned before.
    pub server_on_datagram-Numbered :
        (server' : Server)
        → suc server.next_assigned_id < 2 ^ 64
        → Numbered server
        → server_on_datagram asio quiche packets fuel inner new_scid scratch bytes peer server
          ≡ handled server'
        → Numbered server'
    server_on_datagram-Numbered server' fits n h = elim (server_on_datagram-Decided server' h) [
      | inl keeps ↦ Keeps-Numbered server server' keeps n
      | inr (c, missing, read, adds) ↦
          AddsAtMost-Numbered header.dcid server server' fits missing n adds
    ]
