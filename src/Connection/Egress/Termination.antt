-- ===== src/Connection/Egress/Termination.antt =====
-- The loop of `FlushEgress` ends by itself.
use quicsend.Base.{
  ℕ, zero, suc, ◌≤◌, ◌<◌, ◌≢◌, ◌⊎◌, inl, inr, false, Option, arith, Bool-cases, Option-cases,
  is_neg, int_eq,
}
use quicsend.Asio.{Asio}
use quicsend.Quiche.{Quiche}
use quicsend.Quiche.Laws.{SendLaws}
use quicsend.Sockaddr.{sockaddr_to_endpoint}
use quicsend.Allocator.{max_datagram_send_size}
use quicsend.Connection.{World, Callbacks}
use quicsend.Connection.Egress.{
  Ending, starved, Flow, egress_round, egress_loop, drain, flush_bodies, flush_egress_with,
}

module _ (asio : Asio) (quiche : Quiche) (laws : SendLaws quiche) where
  -- A round that goes on leaves fewer packets; a round that ends has not run out of fuel.
  abbrev RoundOf : Flow asio quiche → Flow asio quiche ⊎ (Ending × Flow asio quiche) → Type 0
  RoundOf flow (inl flow') = suc (quiche.backlog flow'.transport) ≤ quiche.backlog flow.transport
  RoundOf flow (inr ended) = ended.0 ≢ starved

  egress_round-RoundOf : (flow : Flow asio quiche) → RoundOf flow (egress_round asio quiche flow)
  unfolding egress_round
  egress_round-RoundOf flow =
      let sent = quiche.conn_send max_datagram_send_size flow.transport in
      let packet = sent.0 in
      elim (Bool-cases (int_eq packet.written quiche.err_done)) [
        | inl done ↦ rw done (λ e. ground arith)
        | inr more ↦ elim (Bool-cases (is_neg packet.written)) [
          | inl neg ↦ rw (more, neg) (λ e. ground arith)
          | inr written ↦ elim (Option-cases (sockaddr_to_endpoint asio packet.to packet.to_len)) [
            | inl unknown ↦ rw (more, written, unknown) (λ e. ground arith)
            | inr (dest, e) ↦
                rw (more, written, e)
                  (laws.backlog_falls max_datagram_send_size flow.transport written)
          ]
        ]
      ]

  -- A round that goes on is followed by what ends, and any other has ended.
  ends_after :
      (fuel : ℕ) (flow : Flow asio quiche) (round : Flow asio quiche ⊎ (Ending × Flow asio quiche))
      → RoundOf flow round
      → ((flow' : Flow asio quiche)
          → suc (quiche.backlog flow'.transport) ≤ quiche.backlog flow.transport
          → (egress_loop asio quiche fuel flow').0 ≢ starved)
      → (elim round as (λ x. Ending × Flow asio quiche) [
        | inl flow' ↦ egress_loop asio quiche fuel flow'
        | inr ended ↦ ended
      ]).0
        ≢ starved
  ends_after fuel flow (inl flow') fewer later = later flow' fewer
  ends_after fuel flow (inr ended) fine later = fine

  egress_loop-ends :
      (fuel : ℕ) (flow : Flow asio quiche)
      → quiche.backlog flow.transport < fuel
      → (egress_loop asio quiche fuel flow).0 ≢ starved
  unfolding egress_loop
  egress_loop-ends zero flow h = absurd (omega arith)
  egress_loop-ends (suc fuel) flow h =
      ends_after fuel flow (egress_round asio quiche flow) (egress_round-RoundOf flow)
        (λ flow' fewer. egress_loop-ends fuel flow' (omega arith))

  -- FlushEgress ends by itself and not because the fuel of the model is used up, for a library in
  -- which each packet written leaves one fewer to be written.
  pub flush_egress_with-ends :
      {A : Type 0} (callbacks : Callbacks asio quiche A) (buffer : Option ℕ)
      (w : World asio quiche A)
      → (flush_egress_with asio quiche callbacks buffer w).0 ≢ starved
  unfolding flush_egress_with drain
  flush_egress_with-ends callbacks buffer w =
      let w' = flush_bodies asio quiche callbacks w in
      let ends =
        egress_loop-ends (suc (quiche.backlog w'.transport))
          (record { buffer = buffer; sent = false; socket = w'.socket; transport = w'.transport })
          (omega arith) in
      λ e. ends (ground arith)
