-- ===== src/Connection/Egress/Buffers.antt =====
-- `FlushEgress` and its buffers.
use quicsend.Base.{
  ℕ, zero, suc, ◌≤◌, ◌≡◌, refl, ◌∙◌, ◌⊎◌, inl, inr, List, ◌∷◌, false, Option, none, some, arith,
  Bool-cases, Option-cases, is_neg, int_eq, pos_part, take,
}
use quicsend.Asio.{Asio}
use quicsend.Quiche.{Quiche}
use quicsend.Sockaddr.{sockaddr_to_endpoint}
use quicsend.Allocator.{Socket, fill, send, max_datagram_send_size}
use quicsend.Allocator.Ownership.{
  Owned, flying, allocate-Owned, send-Owned, fill-Owned, fill-flying,
}
use quicsend.Connection.{World, Callbacks}
use quicsend.Connection.Egress.{
  Ending, Flow, take_buffer, with_buffer, egress_round, egress_loop, drain,
}

-- The buffers that are held: that of the flush, if it has one, and those of others.
abbrev pub and_of : Option ℕ → List ℕ → List ℕ
and_of none others = others
and_of (some b) others = b ∷ others

module _ (asio : Asio) (quiche : Quiche) (others : List ℕ) where
  -- The buffers are owned, and what was in flight is in flight with the same payload.
  abbrev Safe : Socket asio.Endpoint → Option ℕ → Socket asio.Endpoint → Type 0
  Safe before buffer after =
      Owned (and_of buffer others) after
      × ((c : ℕ)
          → 1 ≤ flying c before
          → (1 ≤ flying c after) × (after.payload c ≡ before.payload c))

  take_buffer-Safe :
      (before after : Socket asio.Endpoint)
      → Safe before none after
      → let (b, s) = take_buffer asio quiche after in Safe before (some b) s
  unfolding take_buffer
  take_buffer-Safe before after (o, h) = (allocate-Owned others after o, h)

  with_buffer-Safe :
      (before : Socket asio.Endpoint) (flow : Flow asio quiche)
      → Safe before flow.buffer flow.socket
      → let (b, s) = with_buffer asio quiche flow in Safe before (some b) s
  unfolding with_buffer
  with_buffer-Safe before flow safe = go flow.buffer safe
    where
      go :
          (buffer : Option ℕ)
          → Safe before buffer flow.socket
          → let (b, s) = elim buffer as (λ x. ℕ × Socket asio.Endpoint) [
            | some b ↦ (b, flow.socket)
            | none ↦ take_buffer asio quiche flow.socket
          ] in
            Safe before (some b) s
      go (some b) h = h
      go none h = take_buffer-Safe before flow.socket h

  -- A round, whether it goes on or ends.
  abbrev SafeAfter : Socket asio.Endpoint → Flow asio quiche ⊎ (Ending × Flow asio quiche) → Type 0
  SafeAfter before (inl flow) = Safe before flow.buffer flow.socket
  SafeAfter before (inr (ending, flow)) = Safe before flow.buffer flow.socket

  fill-Safe :
      (b : ℕ) (bytes : List ℕ) (before after : Socket asio.Endpoint)
      → Safe before (some b) after
      → Safe before (some b) (fill b bytes after)
  unfolding fill
  fill-Safe b bytes before after (o, h) = (
    fill-Owned b bytes (b ∷ others) after o,
    λ c flies. ((h c flies).0, fill-flying b c bytes others after o (h c flies).0 ∙ (h c flies).1),
  )

  send-Safe :
      (b : ℕ) (dest : asio.Endpoint) (before after : Socket asio.Endpoint)
      → Safe before (some b) after
      → Safe before none (send b dest after)
  unfolding send
  send-Safe b dest before after (o, h) =
      (send-Owned b dest others after o, λ c flies. (omega (arith, (h c flies).0), (h c flies).1))

  egress_round-SafeAfter :
      (before : Socket asio.Endpoint) (flow : Flow asio quiche)
      → Safe before flow.buffer flow.socket
      → SafeAfter before (egress_round asio quiche flow)
  unfolding egress_round
  egress_round-SafeAfter before flow safe =
      let (b, socket) = with_buffer asio quiche flow in
      let held = with_buffer-Safe before flow safe in
      let packet = (quiche.conn_send max_datagram_send_size flow.transport).0 in
      let bytes = take (pos_part packet.written) packet.bytes in
      let filled = fill-Safe b bytes before socket held in
      elim (Bool-cases (int_eq packet.written quiche.err_done)) [
        | inl done ↦ rw done held
        | inr more ↦ elim (Bool-cases (is_neg packet.written)) [
          | inl neg ↦ rw (more, neg) held
          | inr written ↦ elim (Option-cases (sockaddr_to_endpoint asio packet.to packet.to_len)) [
            | inl unknown ↦ rw (more, written, unknown) filled
            | inr (dest, e) ↦
                rw (more, written, e)
                  (take_buffer-Safe before (send b dest (fill b bytes socket))
                    (send-Safe b dest before (fill b bytes socket) filled))
          ]
        ]
      ]

  safe_after :
      (fuel : ℕ) (before : Socket asio.Endpoint)
      (round : Flow asio quiche ⊎ (Ending × Flow asio quiche))
      → SafeAfter before round
      → ((flow : Flow asio quiche)
          → Safe before flow.buffer flow.socket
          → SafeAfter before (inr (egress_loop asio quiche fuel flow)))
      → SafeAfter before (
          inr (elim round as (λ x. Ending × Flow asio quiche) [
            | inl flow' ↦ egress_loop asio quiche fuel flow'
            | inr ended ↦ ended
          ]))
  safe_after fuel before (inl flow) safe later = later flow safe
  safe_after fuel before (inr ended) safe later = safe

  egress_loop-Safe :
      (fuel : ℕ) (before : Socket asio.Endpoint) (flow : Flow asio quiche)
      → Safe before flow.buffer flow.socket
      → SafeAfter before (inr (egress_loop asio quiche fuel flow))
  unfolding egress_loop
  egress_loop-Safe zero before flow safe = safe
  egress_loop-Safe (suc fuel) before flow safe =
      safe_after fuel before (egress_round asio quiche flow)
        (egress_round-SafeAfter before flow safe) (egress_loop-Safe fuel before)

  drain-Safe :
      {A : Type 0} (callbacks : Callbacks asio quiche A) (buffer : Option ℕ)
      (w : World asio quiche A)
      → Owned (and_of buffer others) w.socket
      → let (_, buffer', _, w') = drain asio quiche callbacks buffer w in
        Safe w.socket buffer' w'.socket
  unfolding drain
  drain-Safe callbacks buffer w o =
      egress_loop-Safe (suc (quiche.backlog w.transport)) w.socket
        (record { buffer = buffer; sent = false; socket = w.socket; transport = w.transport })
        (o, λ c flies. (flies, refl))

  -- The loop of FlushEgress keeps this: no send buffer has two owners among the pool, the sends
  -- in flight, the buffer of the flush and those that others hold, and a buffer that is still to
  -- be made has none.
  pub drain-Owned :
      {A : Type 0} (callbacks : Callbacks asio quiche A) (buffer : Option ℕ)
      (w : World asio quiche A)
      → Owned (and_of buffer others) w.socket
      → let (_, buffer', _, w') = drain asio quiche callbacks buffer w in
        Owned (and_of buffer' others) w'.socket
  drain-Owned callbacks buffer w o = (drain-Safe callbacks buffer w o).0

  -- If no send buffer has two owners before the loop of FlushEgress, then a buffer that is in
  -- flight before it is in flight after it, with the same payload.
  pub drain-flying :
      {A : Type 0} (callbacks : Callbacks asio quiche A) (buffer : Option ℕ)
      (w : World asio quiche A) (c : ℕ)
      → Owned (and_of buffer others) w.socket
      → 1 ≤ flying c w.socket
      → let (_, _, _, w') = drain asio quiche callbacks buffer w in
        (1 ≤ flying c w'.socket) × (w'.socket.payload c ≡ w.socket.payload c)
  drain-flying callbacks buffer w c o flies = (drain-Safe callbacks buffer w o).1 c flies
