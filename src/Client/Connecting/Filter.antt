-- ===== src/Client/Connecting/Filter.antt =====
-- The datagrams that reach the connection of the client.
use quicsend.Base.{
  ◌≡◌, refl, sym, ap, subst, ◌∙◌, List, [], ◌∷◌, Bool, true, false, not, ◌&&◌, arith, inl, inr, ℕ,
  length, ltb, Bool-cases, if◌then◌else◌, Option, none, some,
}
use quicsend.Asio.{Asio}
use quicsend.Quiche.{Quiche}
use quicsend.Connection.Events.{Outcome, returned, threw, running, on_datagram}
use quicsend.Client.{client_callbacks, ClientWorld}
use quicsend.Client.Connecting.{
  QuicSendClient, after, from_world, to_world, Result, done, thrown, null_pointer, unfinished,
  Arrival, with_conn, client_on_datagram, on_receive, receive_all,
}

module _ (asio : Asio) (same : asio.Endpoint → asio.Endpoint → Bool) where
  -- Whether an arrival is a datagram of the server.
  abbrev from_server : asio.Endpoint → Arrival asio.Endpoint → Bool
  from_server resolved arrival =
      (not arrival.failed && ltb 0 (length arrival.bytes)) && same arrival.sender_endpoint resolved

  pub only_from : asio.Endpoint → List (Arrival asio.Endpoint) → List (Arrival asio.Endpoint)
  only_from resolved [] = []
  only_from resolved (arrival ∷ rest) =
      if from_server resolved arrival
      then arrival ∷ only_from resolved rest
      else only_from resolved rest

module _ (asio : Asio) (quiche : Quiche) (same : asio.Endpoint → asio.Endpoint → Bool)
    (fuel inner : ℕ) where
  abbrev Client : Type 0
  Client = QuicSendClient asio quiche

  -- What is done leaves the endpoint of the server.
  SameServer : Client → Result Client → Type 0
  SameServer c (done c') = c'.resolved_endpoint ≡ c.resolved_endpoint
  SameServer c thrown = Unit {0}
  SameServer c null_pointer = Unit {0}
  SameServer c unfinished = Unit {0}

  method-SameServer :
      (c : Client) (o : Outcome (ClientWorld asio quiche))
      → SameServer c (elim o [
        | returned w ↦ done (from_world asio quiche c w)
        | threw w ↦ thrown
        | running ↦ unfinished
      ])
  unfolding SameServer
  method-SameServer c (returned w) = refl
  method-SameServer c (threw w) = tt
  method-SameServer c running = tt

  on_receive-SameServer :
      (arrival : Arrival asio.Endpoint) (c : Client)
      → SameServer c (on_receive asio quiche same fuel inner arrival c)
  unfolding on_receive client_on_datagram with_conn SameServer
  on_receive-SameServer arrival c =
      elim (Bool-cases (not arrival.failed && ltb 0 (length arrival.bytes))) [
        | inr no_data ↦ rw no_data refl
        | inl data_came ↦ elim (Bool-cases (same arrival.sender_endpoint c.resolved_endpoint)) [
          | inr other ↦ rw (data_came, other) refl
          | inl own ↦ rw (data_came, own) (handled c c.transport)
        ]
      ]
    where
      handled :
          (c : Client) (p : Option quiche.State)
          → SameServer c (elim p [
            | none ↦ null_pointer
            | some transport ↦
                elim (on_datagram asio quiche
                  (client_callbacks asio quiche)
                  fuel
                  inner
                  arrival.bytes
                  arrival.sender_endpoint
                  (to_world asio quiche c transport)) [
                    | returned w ↦ done (from_world asio quiche c w)
                    | threw w ↦ thrown
                    | running ↦ unfinished
                  ]
          ])
      handled c none = tt
      handled c (some t) = method-SameServer c _

  -- Any other arrival changes nothing.
  on_receive-other :
      (arrival : Arrival asio.Endpoint) (c : Client)
      → from_server asio same c.resolved_endpoint arrival ≡ false
      → on_receive asio quiche same fuel inner arrival c ≡ done c
  unfolding on_receive client_on_datagram
  on_receive-other arrival c h = ground (arith, h)

  stopped :
      (arrivals : List (Arrival asio.Endpoint)) (c : Client)
      → c.app.closed ≡ true
      → receive_all asio quiche same fuel inner arrivals c ≡ done c
  unfolding receive_all
  stopped [] c h = refl
  stopped (arrival ∷ rest) c h = rw (receive_all, h) refl

  goes_on :
      (r : Result Client) (c : Client) (f g : Client → Result Client)
      → ((c' : Client) → c'.resolved_endpoint ≡ c.resolved_endpoint → f c' ≡ g c')
      → SameServer c r
      → after asio quiche r f ≡ after asio quiche r g
  unfolding SameServer
  goes_on (done c') c f g h s = h c' s
  goes_on thrown c f g h s = refl
  goes_on null_pointer c f g h s = refl
  goes_on unfinished c f g h s = refl

  otherwise : {A : Type 0} (b : Bool) (x y : A) → b ≡ false → (if b then x else y) ≡ y
  otherwise true x y h = absurd (ground arith)
  otherwise false x y h = refl

  receive_all-running :
      (arrival : Arrival asio.Endpoint) (rest : List (Arrival asio.Endpoint)) (c : Client)
      → c.app.closed ≡ false
      → receive_all asio quiche same fuel inner (arrival ∷ rest) c
        ≡ after asio quiche
            (on_receive asio quiche same fuel inner arrival c)
            (receive_all asio quiche same fuel inner rest)
  unfolding receive_all
  receive_all-running arrival rest c h = otherwise c.app.closed _ _ h

  -- For every client and every sequence of arrivals at its socket, whatever operator== says of
  -- endpoints: the client comes to the same as with the datagrams of the server alone, without
  -- those of other endpoints, the empty ones and the failed receives.
  pub receive_all-only_from :
      (arrivals : List (Arrival asio.Endpoint)) (c : Client)
      → receive_all asio quiche same fuel inner arrivals c
        ≡ receive_all asio quiche same fuel inner
            (only_from asio same c.resolved_endpoint arrivals)
            c
  unfolding only_from
  receive_all-only_from [] c = refl
  receive_all-only_from (arrival ∷ rest) c =
      let receives = receive_all asio quiche same fuel inner in
      elim (Bool-cases c.app.closed) [
        | inl h ↦ stopped (arrival ∷ rest) c h ∙ sym (stopped _ c h)
        | inr on ↦ elim (Bool-cases (from_server asio same c.resolved_endpoint arrival)) [
          | inl own ↦
              receive_all-running arrival rest c on
              ∙ goes_on (on_receive asio quiche same fuel inner arrival c) c (receives rest)
                  (receives (only_from asio same c.resolved_endpoint rest))
                  (λ c' e.
                    subst (λ p. receives rest c' ≡ receives (only_from asio same p rest) c') e
                      (receive_all-only_from rest c'))
                  (on_receive-SameServer arrival c)
              ∙ sym
                  (receive_all-running arrival (only_from asio same c.resolved_endpoint rest) c on)
              ∙ ap
                  (λ b.
                    receives
                      (if b
                        then arrival ∷ only_from asio same c.resolved_endpoint rest
                        else only_from asio same c.resolved_endpoint rest)
                      c)
                  (sym own)
          | inr other ↦
              receive_all-running arrival rest c on
              ∙ ap (λ r. after asio quiche r (receives rest)) (on_receive-other arrival c other)
              ∙ receive_all-only_from rest c
              ∙ ap
                  (λ b.
                    receives
                      (if b
                        then arrival ∷ only_from asio same c.resolved_endpoint rest
                        else only_from asio same c.resolved_endpoint rest)
                      c)
                  (sym other)
        ]
      ]
