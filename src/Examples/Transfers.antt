-- ===== src/Examples/Transfers.antt =====
-- Bodies on the concrete transport.
use quicsend.Base.{
  ℕ, ◌≡◌, refl, ◌∙◌, ◌⊎◌, List, [], ◌∷◌, ◌++◌, Bool, true, Option, some, ◌&&◌, ◌||◌, arith, ℤ, pos,
  length, take, ◌==◌, if◌then◌else◌,
}
use quicsend.Connection.Streams.{OutgoingStream, CachedResponse}
use quicsend.Connection.Responses.{
  flush_cached_responses, flush_response, send_cached_body, after_body,
}
use quicsend.Connection.Responses.Restarts.{flush_response-restarts}
use quicsend.Connection.Responses.Unfinished.{flush_cached_responses-unfinished}
use quicsend.Connection.Transfers.{
  flush_transfers, transfer_loop, transfer_stream, after_send, send_fin, erase_all, offer_body,
}
use quicsend.Connection.Transfers.Delivery.{
  pending, Keyed, flush_transfers_delivers, flush_transfers_fin_last,
}
use quicsend.Connection.Transfers.Offer.{offer_body_delivers}
use quicsend.Connection.Transfers.Refinement.{
  Transfers, view, flushed, given_body, Steps, none_yet, and_then, flushes as flush, offers, drives,
  SpecSteps, Steps-refine,
}
use quicsend.Quiche.{Quiche}
use quicsend.Quiche.Laws.{BodyLaws, ResponseLaws}
use quicsend.Examples.Transport.{
  Link, idle_link, link, link-BodyLaws, link-finished, link-ResponseLaws,
}

-- Three bytes of room.
abbrev narrow : Link
narrow = record idle_link { room = 3 }

abbrev waiting : List (ℕ × OutgoingStream)
waiting =
    (4, record { id = 4; send_offset = 1; buffer = 10 ∷ 11 ∷ [] })
    ∷ (8, record { id = 8; send_offset = 0; buffer = 20 ∷ 21 ∷ 22 ∷ 23 ∷ [] })
    ∷ []

waiting-Keyed : Keyed waiting
waiting-Keyed = omega arith

flush_transfers_delivers_example :
    let r = flush_transfers link true waiting narrow in
    link-BodyLaws.accepted r.1 8 ++ pending 8 r.0
    ≡ link-BodyLaws.accepted narrow 8 ++ 20 ∷ 21 ∷ 22 ∷ 23 ∷ []
flush_transfers_delivers_example =
    flush_transfers_delivers link link-BodyLaws true waiting narrow 8 waiting-Keyed

finished_four : link-BodyLaws.finished (flush_transfers link true waiting narrow).1 4 ≡ true
unfolding flush_transfers transfer_loop transfer_stream after_send send_fin erase_all
finished_four = link-finished (flush_transfers link true waiting narrow).1 4 ∙ refl

flush_transfers_fin_last_example :
    (link-BodyLaws.finished narrow 4 ≡ true)
    ⊎ (pending 4 (flush_transfers link true waiting narrow).0 ≡ [])
flush_transfers_fin_last_example =
    flush_transfers_fin_last link link-BodyLaws true waiting narrow 4 waiting-Keyed finished_four

offer_body_delivers_example :
    let r = offer_body link true 12 (5 ∷ 6 ∷ 7 ∷ 8 ∷ []) waiting narrow in
    link-BodyLaws.accepted r.2 12 ++ pending 12 r.1
    ≡ (link-BodyLaws.accepted narrow 12 ++ []) ++ 5 ∷ 6 ∷ 7 ∷ 8 ∷ []
offer_body_delivers_example =
    offer_body_delivers link link-BodyLaws true 12 12 (5 ∷ 6 ∷ 7 ∷ 8 ∷ []) waiting narrow refl

finished_twelve :
    link-BodyLaws.finished (offer_body link true 12 (5 ∷ 6 ∷ []) waiting narrow).2 12 ≡ true
unfolding offer_body
finished_twelve = link-finished (offer_body link true 12 (5 ∷ 6 ∷ []) waiting narrow).2 12 ∙ refl

abbrev answer : CachedResponse
answer = record { stream_id = 4; headers = []; body = 1 ∷ 2 ∷ []; bytes_left = 2 }

flush_cached_responses-unfinished_example :
    link-BodyLaws.finished (flush_cached_responses link true (answer ∷ []) idle_link).1 4
    ≡ link-BodyLaws.finished idle_link 4
flush_cached_responses-unfinished_example =
    flush_cached_responses-unfinished link link-BodyLaws link-ResponseLaws true (answer ∷ [])
      idle_link 4 (omega arith)

-- A library that takes one byte of every body.
abbrev first_byte : List ℕ → ℕ
first_byte body = if length body == 0 then 0 else 1

abbrev drip_body : Bool → ℕ → List ℕ → Bool → Link → ℤ × Link
drip_body h id body fin s =
    let n = first_byte body in
    (
      pos n,
      record s {
        taken = λ k. if id == k then s.taken k ++ take n body else s.taken k;
        done = λ k. if id == k then s.done k || (fin && (n == length body)) else s.done k;
      },
    )

abbrev drip : Quiche
drip = record link { h3_send_body = drip_body }

drip-BodyLaws : BodyLaws drip
drip-BodyLaws = record {
  accepted = λ s. s.taken;
  finished = λ s. s.done;
  body_refused = λ h id body fin s k e. ground arith;
  body_fits = λ h id body fin s. ground arith;
  body_taken = λ h id body fin s k e. ground arith;
}

-- Four flushes empty a stream of four bytes.
abbrev four_pauses : List (Link → Link)
four_pauses = (λ s. s) ∷ (λ s. record s { packets = 0 }) ∷ (λ s. s) ∷ (λ s. s) ∷ []

-- A body of three bytes, some other call, and a flush.
abbrev before_transfers : Transfers drip
before_transfers = record { streams = []; transport = idle_link }

abbrev offered : Transfers drip
offered = given_body drip true 12 (1 ∷ 2 ∷ 3 ∷ []) before_transfers

abbrev driven : Transfers drip
driven = record offered { transport = record offered.transport { packets = 0 } }

transfers-Steps :
    Steps drip drip-BodyLaws true before_transfers
      ((12, 1 ∷ 2 ∷ 3 ∷ []) ∷ [])
      (flushed drip true driven)
unfolding view drip-BodyLaws
transfers-Steps =
    and_then
      (and_then (and_then none_yet (offers 12 (1 ∷ 2 ∷ 3 ∷ []) refl))
        (drives (record offered.transport { packets = 0 }) (λ k. refl)))
      flush

Steps-refine_example :
    SpecSteps
      (view drip drip-BodyLaws before_transfers)
      ((12, 1 ∷ 2 ∷ 3 ∷ []) ∷ [])
      (view drip drip-BodyLaws (flushed drip true driven))
Steps-refine_example = Steps-refine drip drip-BodyLaws true tt transfers-Steps

drip-ResponseLaws : ResponseLaws drip drip-BodyLaws
unfolding drip-BodyLaws
drip-ResponseLaws = record {
  response_open = λ h id headers s k. refl;
  response_sends_no_body = λ h id headers fin s k. refl;
}

-- Two flushes of a response of three bytes: its first byte is handed over twice.
abbrev long_answer : CachedResponse
long_answer = record { stream_id = 4; headers = []; body = 1 ∷ 2 ∷ 3 ∷ []; bytes_left = 3 }

abbrev first_flush : Option CachedResponse × Link
first_flush = flush_response drip true long_answer idle_link

abbrev second_flush : Option CachedResponse × Link
second_flush = flush_response drip true (record long_answer { bytes_left = 2 }) first_flush.1

first_flush-left : first_flush.0 ≡ some (record long_answer { bytes_left = 2 })
unfolding flush_response send_cached_body after_body
first_flush-left = refl

second_flush-left : second_flush.0 ≡ some (record long_answer { bytes_left = 1 })
unfolding flush_response send_cached_body after_body
second_flush-left = refl

flush_response-restarts_example :
    drip-BodyLaws.accepted second_flush.1 4
    ≡ (drip-BodyLaws.accepted idle_link 4 ++ 1 ∷ []) ++ 1 ∷ []
flush_response-restarts_example =
    flush_response-restarts drip drip-BodyLaws drip-ResponseLaws refl true long_answer idle_link
      (record long_answer { bytes_left = 2 }) (record long_answer { bytes_left = 1 })
      first_flush-left second_flush-left
