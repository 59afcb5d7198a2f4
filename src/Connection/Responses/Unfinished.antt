-- ===== src/Connection/Responses/Unfinished.antt =====
-- Responses that wait in the cache with a body are never finished.
use quicsend.Base.{ℕ, ◌≤◌, ◌≡◌, refl, ◌∙◌, List, [], ◌∷◌, Bool, false, take, leb, All, arith}
use quicsend.Quiche.{Quiche}
use quicsend.Quiche.Laws.{BodyLaws, ResponseLaws}
use quicsend.Connection.Streams.{CachedResponse}
use quicsend.Connection.Transfers.Offer.{finished-sent}
use quicsend.Connection.Responses.{send_cached_body, flush_response, flush_cached_responses}

module _ (quiche : Quiche) (laws : BodyLaws quiche) (responses : ResponseLaws quiche laws)
    (http3 : Bool) where
  open laws use {finished}

  send_cached_body-unfinished :
      (cached : CachedResponse) (s : quiche.State) (k : ℕ)
      → 1 ≤ cached.bytes_left
      → finished (send_cached_body quiche http3 cached s).1 k ≡ finished s k
  unfolding send_cached_body
  send_cached_body-unfinished cached s k h =
      let more : leb cached.bytes_left 0 ≡ false = ground arith in
      rw more
        (finished-sent quiche laws http3 cached.stream_id k (take cached.bytes_left cached.body) s)

  flush_response-unfinished :
      (cached : CachedResponse) (s : quiche.State) (k : ℕ)
      → 1 ≤ cached.bytes_left
      → finished (flush_response quiche http3 cached s).1 k ≡ finished s k
  unfolding flush_response
  flush_response-unfinished cached s k h =
      let more : leb cached.bytes_left 0 ≡ false = ground arith in
      let s' = (quiche.h3_send_response http3 cached.stream_id cached.headers false s).1 in
      rw more (
        ground (
          arith,
          responses.response_open http3 cached.stream_id cached.headers s k,
          send_cached_body-unfinished cached s' k h,
        ))

  -- If every cached response has bytes left, then FlushCachedResponses finishes no stream: a
  -- response with a body that had to wait never gets its FIN, even when all of its bytes have
  -- been taken. Headers sent without FIN finish no stream.
  pub flush_cached_responses-unfinished :
      (cache : List CachedResponse) (s : quiche.State) (k : ℕ)
      → All (λ cached. 1 ≤ cached.bytes_left) cache
      → finished (flush_cached_responses quiche http3 cache s).1 k ≡ finished s k
  unfolding flush_cached_responses
  flush_cached_responses-unfinished [] s k h = refl
  flush_cached_responses-unfinished (cached ∷ rest) s k h =
      flush_cached_responses-unfinished rest (flush_response quiche http3 cached s).1 k h.1
      ∙ flush_response-unfinished cached s k h.0
