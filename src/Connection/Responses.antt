-- ===== src/Connection/Responses.antt =====
-- `QuicheConnection::FlushCachedResponses`.
pub mod Unfinished
pub mod Restarts
use quicsend.Base.{
  ◌-◌, List, [], ◌∷◌, Bool, not, ◌&&◌, Option, none, some, ℤ, pos_part, is_neg, int_eq, length,
  take, ltb, leb, ◌==◌, if◌then◌else◌,
}
use quicsend.Quiche.{Quiche}
use quicsend.Connection.Streams.{CachedResponse}

module _ (quiche : Quiche) (http3 : Bool) where
  open quiche use {
    State, h3_send_body, h3_send_response, h3_err_done, h3_err_stream_blocked, conn_is_established,
  }

  -- What follows a send of the body with the result `sent`; `none` erases the response.
  unfoldable pub after_body : ℤ → CachedResponse → Option CachedResponse
  after_body sent cached =
      if int_eq sent h3_err_done
      then none
      else if int_eq sent h3_err_stream_blocked
      then some cached
      else if is_neg sent
      then none
      else let bytes_left = cached.bytes_left - pos_part sent in
        if leb bytes_left 0 then none else some (record cached { bytes_left = bytes_left })

  -- The first `bytes_left` bytes of the body are offered.
  unfoldable pub send_cached_body : CachedResponse → State → Option CachedResponse × State
  unfolding after_body
  send_cached_body cached s =
      let (sent, s') =
        h3_send_body http3 cached.stream_id (take cached.bytes_left cached.body)
          (leb cached.bytes_left 0) s in
      (after_body sent cached, s')

  -- The body of the loop: the response as it stays in the cache, or `none` where it is erased.
  unfoldable pub flush_response : CachedResponse → State → Option CachedResponse × State
  unfolding send_cached_body
  flush_response cached s =
      let (r, s') =
        h3_send_response http3 cached.stream_id cached.headers (leb cached.bytes_left 0) s in
      if int_eq r h3_err_stream_blocked && conn_is_established s'
      then (some cached, s')
      else if is_neg r
      then (none, s')
      else if not (length cached.body == 0) && ltb 0 cached.bytes_left
      then send_cached_body cached s'
      else (none, s')

  unfoldable pub keep : Option CachedResponse → List CachedResponse → List CachedResponse
  keep none rest = rest
  keep (some cached) rest = cached ∷ rest

  -- `FlushCachedResponses`.
  unfoldable pub flush_cached_responses : List CachedResponse → State → List CachedResponse × State
  unfolding keep
  flush_cached_responses [] s = ([], s)
  flush_cached_responses (cached ∷ rest) s =
      let (cached', s') = flush_response cached s in
      let (rest', s'') = flush_cached_responses rest s' in (keep cached' rest', s'')
