-- ===== src/Connection/Egress/Packets.antt =====
-- What `FlushEgress` sends: the packets that the library writes, each once and in their order.
use quicsend.Base.{
  ℕ, zero, suc, ◌≤◌, ◌≡◌, refl, sym, ap, ◌∙◌, ◌⊎◌, inl, inr, List, [], ◌∷◌, false, ◌||◌, Option,
  none, some, arith, Bool-cases, Option-cases, is_neg, int_eq, pos_part, take, if◌then◌else◌,
}
use quicsend.Asio.{Asio}
use quicsend.Quiche.{Quiche}
use quicsend.Sockaddr.{sockaddr_to_endpoint}
use quicsend.Allocator.{Socket, fill, send, max_datagram_send_size}
use quicsend.Allocator.Ownership.{
  Owned, flights, allocate-Owned, send-Owned, fill-Owned, fill-flying,
}
use quicsend.Connection.{World, Callbacks}
use quicsend.Connection.Egress.{
  Ending, Flow, take_buffer, with_buffer, egress_round, egress_loop, drain,
}
use quicsend.Connection.Egress.Buffers.{and_of}

module _ {Endpoint : Type 0} where
  -- What the sends that are not complete carry, and where they go; the last one first.
  abbrev pub carried : (ℕ → List ℕ) → List (ℕ × Endpoint) → List (List ℕ × Endpoint)
  carried payload [] = []
  carried payload ((b, dest) ∷ rest) = (payload b, dest) ∷ carried payload rest

  -- Packets that are sent one after the other, on top of what was sent before.
  abbrev pub sent_after :
      List (List ℕ × Endpoint) → List (List ℕ × Endpoint) → List (List ℕ × Endpoint)
  sent_after [] before = before
  sent_after (packet ∷ rest) before = sent_after rest (packet ∷ before)

  carried-same :
      (f g : ℕ → List ℕ) (sends : List (ℕ × Endpoint))
      → ((c : ℕ) → 1 ≤ flights c sends → f c ≡ g c)
      → carried f sends ≡ carried g sends
  carried-same f g [] h = refl
  carried-same f g ((b, dest) ∷ rest) h =
      let own = h b (ground arith) in
      let others = carried-same f g rest (λ c l. h c (omega (arith, l))) in
      ground (arith, own, others)

  carried-fill :
      (b : ℕ) (bytes held : List ℕ) (s : Socket Endpoint)
      → Owned (b ∷ held) s
      → carried (fill b bytes s).payload s.in_flight ≡ carried s.payload s.in_flight
  carried-fill b bytes held s o =
      carried-same (fill b bytes s).payload s.payload s.in_flight
        (λ c l. fill-flying b c bytes held s o l)

  carried-send :
      (b : ℕ) (bytes : List ℕ) (dest : Endpoint) (s : Socket Endpoint)
      (before : List (List ℕ × Endpoint))
      → carried (fill b bytes s).payload s.in_flight ≡ before
      → carried (send b dest (fill b bytes s)).payload (send b dest (fill b bytes s)).in_flight
        ≡ (bytes, dest) ∷ before
  unfolding fill send
  carried-send b bytes dest s before e = ground (arith, e)

module _ (asio : Asio) (quiche : Quiche) where
  -- The packets that the library writes until it has no more, fails, or names no endpoint; at most
  -- so many.
  pub packets : ℕ → quiche.State → List (List ℕ × asio.Endpoint)
  packets zero s = []
  packets (suc fuel) s =
      let (packet, t) = quiche.conn_send max_datagram_send_size s in
      let rest = packets fuel t in
      if int_eq packet.written quiche.err_done || is_neg packet.written
      then []
      else elim (sockaddr_to_endpoint asio packet.to packet.to_len) [
        | none ↦ []
        | some dest ↦ (take (pos_part packet.written) packet.bytes, dest) ∷ rest
      ]

  abbrev load : Flow asio quiche → List (List ℕ × asio.Endpoint)
  load flow = carried flow.socket.payload flow.socket.in_flight

  module _ (others : List ℕ) where
    -- The buffer of the round is held, and nothing that flies has changed.
    abbrev Ready : Socket asio.Endpoint → ℕ × Socket asio.Endpoint → Type 0
    Ready before (b, s) =
        Owned (b ∷ others) s
        × (carried s.payload s.in_flight ≡ carried before.payload before.in_flight)

    take_buffer-Ready :
        (s : Socket asio.Endpoint) → Owned others s → Ready s (take_buffer asio quiche s)
    unfolding take_buffer
    take_buffer-Ready s o = (allocate-Owned others s o, refl)

    with_buffer-Ready :
        (buffer : Option ℕ) (flow : Flow asio quiche)
        → flow.buffer ≡ buffer
        → Owned (and_of buffer others) flow.socket
        → Ready flow.socket (with_buffer asio quiche flow)
    unfolding with_buffer
    with_buffer-Ready none flow e o = rw (with_buffer, e) (take_buffer-Ready flow.socket o)
    with_buffer-Ready (some b) flow e o = rw (with_buffer, e) (o, refl)

    -- A round that goes on has sent the first of the packets, and one that ends has sent none.
    abbrev SendsFirst : Flow asio quiche → Flow asio quiche ⊎ (Ending × Flow asio quiche) → Type 0
    SendsFirst flow (inl flow') =
        Owned (and_of flow'.buffer others) flow'.socket
        × ((n : ℕ)
            → sent_after (packets (suc n) flow.transport) (load flow)
              ≡ sent_after (packets n flow'.transport) (load flow'))
    SendsFirst flow (inr (ending, flow')) =
        (load flow' ≡ load flow) × ((n : ℕ) → packets (suc n) flow.transport ≡ [])

    egress_round-SendsFirst :
        (flow : Flow asio quiche)
        → Owned (and_of flow.buffer others) flow.socket
        → SendsFirst flow (egress_round asio quiche flow)
    unfolding egress_round packets send fill
    egress_round-SendsFirst flow o =
        let (b, socket) = with_buffer asio quiche flow in
        let (held, same) = with_buffer-Ready flow.buffer flow refl o in
        let (packet, t) = quiche.conn_send max_datagram_send_size flow.transport in
        let bytes = take (pos_part packet.written) packet.bytes in
        let filled = fill b bytes socket in
        let loaded : carried filled.payload socket.in_flight ≡ load flow =
          carried-fill b bytes others socket held ∙ same in
        elim (Bool-cases (int_eq packet.written quiche.err_done)) [
          | inl done ↦
              let ends : (n : ℕ) → packets (suc n) flow.transport ≡ [] =
                λ n. ground (arith, done) in
              rw (egress_round, done) (same, ends)
          | inr more ↦ elim (Bool-cases (is_neg packet.written)) [
            | inl neg ↦
                let ends : (n : ℕ) → packets (suc n) flow.transport ≡ [] =
                  λ n. ground (arith, more, neg) in
                rw (egress_round, more, neg) (same, ends)
            | inr written ↦
                elim (Option-cases (sockaddr_to_endpoint asio packet.to packet.to_len)) [
                  | inl unknown ↦
                      let ends : (n : ℕ) → packets (suc n) flow.transport ≡ [] =
                        λ n. ground (arith, more, written, unknown) in
                      rw (egress_round, more, written, unknown) (loaded, ends)
                  | inr (dest, e) ↦
                      let flying_on =
                        send-Owned b dest others filled
                          (fill-Owned b bytes (b ∷ others) socket held) in
                      let (ready, kept) = take_buffer-Ready (send b dest filled) flying_on in
                      let first : (n : ℕ)
                          → sent_after (packets (suc n) flow.transport) (load flow)
                            ≡ sent_after (packets n t) ((bytes, dest) ∷ load flow) =
                        λ n. ground (arith, more, written, e) in
                      let last = kept ∙ carried-send b bytes dest socket (load flow) loaded in
                      rw (egress_round, more, written, e)
                        (ready, λ n. first n ∙ ap (sent_after (packets n t)) (sym last))
                ]
          ]
        ]

    sends_after :
        (fuel : ℕ) (flow : Flow asio quiche)
        (round : Flow asio quiche ⊎ (Ending × Flow asio quiche))
        → SendsFirst flow round
        → ((flow' : Flow asio quiche)
            → Owned (and_of flow'.buffer others) flow'.socket
            → load (egress_loop asio quiche fuel flow').1
              ≡ sent_after (packets fuel flow'.transport) (load flow'))
        → load
            (elim round as (λ x. Ending × Flow asio quiche) [
              | inl flow' ↦ egress_loop asio quiche fuel flow'
              | inr ended ↦ ended
            ]).1
          ≡ sent_after (packets (suc fuel) flow.transport) (load flow)
    sends_after fuel flow (inl flow') (o, first) later = later flow' o ∙ sym (first fuel)
    sends_after fuel flow (inr (ending, flow')) (same, nothing) later =
        same ∙ ap (λ ps. sent_after ps (load flow)) (sym (nothing fuel))

    egress_loop-sends :
        (fuel : ℕ) (flow : Flow asio quiche)
        → Owned (and_of flow.buffer others) flow.socket
        → load (egress_loop asio quiche fuel flow).1
          ≡ sent_after (packets fuel flow.transport) (load flow)
    unfolding egress_loop packets
    egress_loop-sends zero flow o = refl
    egress_loop-sends (suc fuel) flow o =
        sends_after fuel flow (egress_round asio quiche flow) (egress_round-SendsFirst flow o)
          (egress_loop-sends fuel)

    -- If no send buffer has two owners before the loop of FlushEgress, then after it the sends in
    -- flight carry what they carried before and, on top of that, exactly the packets that the
    -- library writes, each with its bytes and its endpoint, once and in their order, up to the
    -- end, a failure or an address of no known family.
    pub drain-sends :
        {A : Type 0} (callbacks : Callbacks asio quiche A) (buffer : Option ℕ)
        (w : World asio quiche A)
        → Owned (and_of buffer others) w.socket
        → let (_, _, _, w') = drain asio quiche callbacks buffer w in
          carried w'.socket.payload w'.socket.in_flight
          ≡ sent_after
              (packets (suc (quiche.backlog w.transport)) w.transport)
              (carried w.socket.payload w.socket.in_flight)
    unfolding drain
    drain-sends callbacks buffer w o =
        egress_loop-sends (suc (quiche.backlog w.transport))
          (record { buffer = buffer; sent = false; socket = w.socket; transport = w.transport }) o
