-- ===== src/Client/Connecting/Faults.antt =====
-- The pointer to the connection of quiche: null until `Connect`, and overwritten by each retry.
use quicsend.Base.{
  ℕ, ◌+◌, ◌≡◌, refl, ap, ◌∙◌, List, [], ◌∷◌, true, false, Bool, Option, none, some, arith, length,
  Option-cases, Bool-cases, inl, inr, sym, ◌≢◌,
}
use quicsend.ConnectionId.{ConnectionId}
use quicsend.Asio.{Asio}
use quicsend.Quiche.{Quiche}
use quicsend.Sockaddr.{Sockaddr, to_sockaddr}
use quicsend.Allocator.{Socket}
use quicsend.Connection.Egress.{Ending, drained, failed, starved, threw as egress_threw}
use quicsend.Client.{QuicSendClientSettings}
use quicsend.Client.Connecting.{
  QuicSendClient, connected, thrown, after, Result, done, null_pointer, new_client, connect,
  on_connection_timer, on_resolved, pass_over,
}

module _ (asio : Asio) (quiche : Quiche) where
  abbrev Client : Type 0
  Client = QuicSendClient asio quiche

  connected-sets :
      (endpoint : asio.Endpoint) (r : Option quiche.State) (c : Client)
      → (connected asio quiche endpoint r c).0 ≡ true
      → (t : quiche.State) × ((connected asio quiche endpoint r c).1.transport ≡ some t)
  unfolding connected
  connected-sets endpoint none c h = absurd (ground arith)
  connected-sets endpoint (some t) c h = (t, refl)

  -- Where `Connect` returns true, it has set the pointer.
  connect-sets :
      (scid : ConnectionId) (endpoint : asio.Endpoint) (c c' : Client)
      → connect asio quiche scid endpoint c ≡ some (true, c')
      → (t : quiche.State) × (c'.transport ≡ some t)
  unfolding connect
  connect-sets scid endpoint c c' h =
      elim (Option-cases (to_sockaddr asio c.socket.local_endpoint)) [
        | inl e ↦ absurd (ground (arith, h, e))
        | inr (local, e) ↦ elim (Option-cases (to_sockaddr asio endpoint)) [
          | inl f ↦ absurd (ground (arith, h, e, f))
          | inr (peer, f) ↦
              let r = quiche.connect scid local peer in
              let both : ◌≡◌ {A = Bool × Client} (connected asio quiche endpoint r c) (true, c') =
                ground (arith, h, e, f) in
              let (t, g) = connected-sets endpoint r c (ap (λ p. p.0) both) in
              (t, ap (λ p. p.1.transport) (sym both) ∙ g)
        ]
      ]

  ended :
      {A : Type 0} (e : Ending) (x : A)
      → (◌≡◌ {A = Result A} (elim e [ egress_threw ↦ thrown | _ ↦ done x ]) null_pointer)
      → ⊥
  ended drained x h = ground arith
  ended failed x h = ground arith
  ended egress_threw x h = ground arith
  ended starved x h = ground arith

  pass_over-linked :
      (buffer : Option ℕ) (c : Client) (t : quiche.State)
      → c.transport ≡ some t
      → pass_over asio quiche buffer c ≢ null_pointer
  unfolding pass_over
  pass_over-linked buffer c t e h = elim (Bool-cases c.added) [
    | inr off ↦ ground (arith, h, off)
    | inl on ↦ elim (Bool-cases c.conn.timeout) [
      | inl over ↦ ground (arith, h, on, over)
      | inr alive ↦ ended _ _ (rw (on, alive, e) at h)
    ]
  ]

  unlinked :
      (buffer : Option ℕ) (c : Client)
      → c.added ≡ true
      → c.conn.timeout ≡ false
      → c.transport ≡ none
      → pass_over asio quiche buffer c ≡ null_pointer
  unfolding pass_over
  unlinked buffer c on alive null = ground (arith, on, alive, null)

  -- If Connect on a new client succeeds: a pass of the sending thread between the call of Add and
  -- that of Connect hands the library a null pointer, and a pass after Connect does not.
  pub pass_over-on_resolved :
      (settings : QuicSendClientSettings) (cert_der : List ℕ) (endpoint resolved : asio.Endpoint)
      (socket : Socket asio.Endpoint) (buffer : Option ℕ) (scid : ConnectionId) (c : Client)
      → let added =
          on_resolved asio quiche resolved
            (new_client asio quiche settings cert_der endpoint socket) in
        connect asio quiche scid resolved added ≡ some (true, c)
        → (pass_over asio quiche buffer added ≡ null_pointer)
          × (pass_over asio quiche buffer c ≢ null_pointer)
  unfolding on_resolved new_client
  pass_over-on_resolved settings cert_der endpoint resolved socket buffer scid c h =
      let added =
        on_resolved asio quiche resolved
          (new_client asio quiche settings cert_der endpoint socket) in
      let (t, e) = connect-sets scid resolved added c h in
      (unlinked buffer added refl refl refl, pass_over-linked buffer c t e)

  -- The timer, expiring as often as it waits, with the ids that are drawn.
  pub expires : List ConnectionId → Client → Result Client
  expires [] c = done c
  expires (scid ∷ rest) c = elim c.connection_timer [
    | none ↦ done c
    | some endpoint ↦
        after asio quiche (on_connection_timer asio quiche false scid endpoint c) (expires rest)
  ]

  -- The client while it waits for an answer.
  abbrev pub dialing : Client → asio.Endpoint → quiche.State → Client
  dialing c endpoint transport = record c {
    transport = some transport;
    connection_timer = some endpoint;
  }

  -- A client that goes on dialing, and has lost so many connections.
  pub record StillDialing (endpoint : asio.Endpoint) (lost : ℕ) (r : Result Client) : Type 0 where
    client : Client
    transport : quiche.State
    is_dialing : r ≡ done (dialing client endpoint transport)
    has_lost : length client.leaked ≡ lost

  module _ (endpoint : asio.Endpoint) (local peer : Sockaddr × ℕ)
      (peer_found : to_sockaddr asio endpoint ≡ some peer)
      (connects : (scid : ConnectionId)
        → (t : quiche.State) × (quiche.connect scid local peer ≡ some t)
          × (quiche.conn_is_established t ≡ false)) where
    once_more :
        (scid : ConnectionId) (c : Client) (t : quiche.State)
        → to_sockaddr asio c.socket.local_endpoint ≡ some local
        → quiche.conn_is_established t ≡ false
        → on_connection_timer asio quiche false scid endpoint (dialing c endpoint t)
          ≡ done (
              dialing
                (record c {
                  conn = record c.conn { peer_endpoint = endpoint };
                  leaked = t ∷ c.leaked;
                })
                endpoint
                (connects scid).0)
    unfolding on_connection_timer connect
    once_more scid c t here silent = rw (silent, here, peer_found, (connects scid).1) refl

    -- Where the library can connect to the endpoint and a new connection is not yet established:
    -- as often as the timer of a client that is not established expires, the client goes on
    -- dialing the same endpoint, and has one more connection of the library that nothing points
    -- to and nothing frees.
    pub expires-leaks :
        (scids : List ConnectionId) (c : Client) (t : quiche.State)
        → to_sockaddr asio c.socket.local_endpoint ≡ some local
        → quiche.conn_is_established t ≡ false
        → StillDialing endpoint
            (length scids + length c.leaked)
            (expires scids (dialing c endpoint t))
    unfolding expires
    expires-leaks [] c t here silent = record {
      client = c;
      transport = t;
      is_dialing = refl;
      has_lost = omega arith;
    }
    expires-leaks (scid ∷ rest) c t here silent =
        let c' : Client = record c {
          conn = record c.conn { peer_endpoint = endpoint };
          leaked = t ∷ c.leaked;
        } in
        let (t', made, silent') = connects scid in
        let later = expires-leaks rest c' t' here silent' in
        record {
          client = later.client;
          transport = later.transport;
          is_dialing =
              ap (λ r. after asio quiche r (expires rest)) (once_more scid c t here silent)
              ∙ later.is_dialing;
          has_lost = later.has_lost ∙ omega arith;
        }
