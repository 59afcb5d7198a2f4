-- ===== src/Connection/Responses/Restarts.antt =====
-- Responses that wait in the cache begin anew with each flush.
use quicsend.Base.{
  ℕ, zero, suc, ◌-◌, ◌≤◌, ◌≡◌, refl, sym, ap, ◌∙◌, inl, inr, List, [], ◌∷◌, ◌++◌, append-nil, Bool,
  true, not, ◌&&◌, some, ℤ, pos_part, is_neg, int_eq, int_eq_iff, length, take, ltb, leb, ◌==◌,
  arith, Bool-cases, if◌then◌else◌,
}
use quicsend.Quiche.{Quiche}
use quicsend.Quiche.Laws.{BodyLaws, ResponseLaws}
use quicsend.Connection.Streams.{CachedResponse}
use quicsend.Connection.Transfers.Offer.{accepted-sent, pos_part_of_neg}
use quicsend.Connection.Responses.{after_body, send_cached_body, flush_response}

take_less : (n m : ℕ) (xs : List ℕ) → n ≤ m → take n (take m xs) ≡ take n xs
take_less zero m xs h = refl
take_less (suc n) zero xs h = absurd (omega arith)
take_less (suc n) (suc m) [] h = refl
take_less (suc n) (suc m) (x ∷ xs) h = ap (λ ys. x ∷ ys) (take_less n m xs (omega arith))

module _ (quiche : Quiche) (laws : BodyLaws quiche) (responses : ResponseLaws quiche laws)
    (blocked_negative : is_neg quiche.h3_err_stream_blocked ≡ true) (http3 : Bool) where
  open laws use {accepted}

  -- What stays in the cache is the same response, with so many bytes fewer to send.
  abbrev Shorter : CachedResponse → ℕ → CachedResponse → Type 0
  Shorter cached n cached' =
      (cached'.stream_id ≡ cached.stream_id)
      × (cached'.body ≡ cached.body)
      × (n ≡ cached.bytes_left - cached'.bytes_left)
      × (n ≤ cached.bytes_left)

  after_body-Shorter :
      (sent : ℤ) (cached cached' : CachedResponse)
      → after_body quiche http3 sent cached ≡ some cached'
      → Shorter cached (pos_part sent) cached'
  unfolding after_body
  after_body-Shorter sent cached cached' h = elim (Bool-cases (int_eq sent quiche.h3_err_done)) [
    | inl finished ↦ absurd (ground (arith, h, finished))
    | inr more ↦ elim (Bool-cases (int_eq sent quiche.h3_err_stream_blocked)) [
      | inl blocked ↦
          let e = (int_eq_iff sent quiche.h3_err_stream_blocked).0 blocked in
          let nothing = pos_part_of_neg sent (ap is_neg e ∙ blocked_negative) in
          let same : cached ≡ cached' = ground (arith, h, more, blocked) in
          (
            ap (λ c. c.stream_id) (sym same),
            ap (λ c. c.body) (sym same),
            rw (nothing, sym same) (omega arith),
            omega (arith, nothing),
          )
      | inr open_again ↦ elim (Bool-cases (is_neg sent)) [
        | inl neg ↦ absurd (ground (arith, h, more, open_again, neg))
        | inr taken ↦ elim (Bool-cases (leb (cached.bytes_left - pos_part sent) 0)) [
          | inl all ↦ absurd (ground (arith, h, more, open_again, taken, all))
          | inr part ↦
              let same : record cached { bytes_left = cached.bytes_left - pos_part sent }
                  ≡ cached' =
                ground (arith, h, more, open_again, taken, part) in
              let fewer : cached.bytes_left - pos_part sent ≡ cached'.bytes_left =
                ap (λ c. c.bytes_left) same in
              (
                ap (λ c. c.stream_id) (sym same),
                ap (λ c. c.body) (sym same),
                ground (arith, fewer, part),
                ground (arith, part),
              )
        ]
      ]
    ]
  ]

  -- What a flush that leaves the response in the cache has handed over: the start of the body.
  abbrev Starts : ℕ → CachedResponse → quiche.State → CachedResponse × quiche.State → Type 0
  Starts k cached s (cached', s') =
      (cached'.stream_id ≡ cached.stream_id)
      × (cached'.body ≡ cached.body)
      × (accepted s' k
          ≡ accepted s k
            ++ (if cached.stream_id == k
                then take (cached.bytes_left - cached'.bytes_left) cached.body
                else []))

  send_cached_body-Starts :
      (k : ℕ) (cached cached' : CachedResponse) (s : quiche.State)
      → (send_cached_body quiche http3 cached s).0 ≡ some cached'
      → Starts k cached s (cached', (send_cached_body quiche http3 cached s).1)
  unfolding send_cached_body
  send_cached_body-Starts k cached cached' s h =
      let fin = leb cached.bytes_left 0 in
      let offer = take cached.bytes_left cached.body in
      let sent = (quiche.h3_send_body http3 cached.stream_id offer fin s).0 in
      let (id, body, n, fits) = after_body-Shorter sent cached cached' h in
      let given = accepted-sent quiche laws http3 cached.stream_id k offer fin s in
      (
        id,
        body,
        given
            ∙ ap (λ xs. accepted s k ++ (if cached.stream_id == k then xs else []))
                (take_less (pos_part sent) cached.bytes_left cached.body fits
                  ∙ ap (λ m. take m cached.body) n),
      )

  -- A response that stays as it is has handed over nothing.
  nothing_new :
      (k : ℕ) (cached cached' : CachedResponse) (s : quiche.State)
      → cached ≡ cached'
      → accepted s k
          ++ (if cached.stream_id == k
              then take (cached.bytes_left - cached'.bytes_left) cached.body
              else [])
        ≡ accepted s k
  nothing_new k cached cached' s same =
      let none_left : cached.bytes_left - cached'.bytes_left ≡ 0 = rw (sym same) (omega arith) in
      rw none_left (ground (arith, append-nil (accepted s k)))

  flush_response-Starts :
      (k : ℕ) (cached cached' : CachedResponse) (s : quiche.State)
      → (flush_response quiche http3 cached s).0 ≡ some cached'
      → Starts k cached s (cached', (flush_response quiche http3 cached s).1)
  unfolding flush_response
  flush_response-Starts k cached cached' s h =
      let fin = leb cached.bytes_left 0 in
      let (r, s') = quiche.h3_send_response http3 cached.stream_id cached.headers fin s in
      let headers_only =
        responses.response_sends_no_body http3 cached.stream_id cached.headers fin s k in
      elim (Bool-cases (int_eq r quiche.h3_err_stream_blocked && quiche.conn_is_established s')) [
        | inl blocked ↦
            let same : cached ≡ cached' = ground (arith, h, blocked) in
            rw blocked (
              ap (λ c. c.stream_id) (sym same),
              ap (λ c. c.body) (sym same),
              headers_only ∙ sym (nothing_new k cached cached' s same),
            )
        | inr on ↦ elim (Bool-cases (is_neg r)) [
          | inl neg ↦ absurd (ground (arith, h, on, neg))
          | inr sent ↦
              elim (Bool-cases (not (length cached.body == 0) && ltb 0 cached.bytes_left)) [
                | inr no_body ↦ absurd (ground (arith, h, on, sent, no_body))
                | inl more ↦
                    let kept : (send_cached_body quiche http3 cached s').0 ≡ some cached' =
                      ground (arith, h, on, sent, more) in
                    let (id, body, given) = send_cached_body-Starts k cached cached' s' kept in
                    rw (on, sent, more)
                      (
                        id,
                        body,
                        given
                            ∙ ap
                                (λ xs.
                                  xs
                                  ++ (if cached.stream_id == k
                                      then take (cached.bytes_left - cached'.bytes_left) cached.body
                                      else []))
                                headers_only,
                      )
              ]
        ]
      ]

  module _ (cached : CachedResponse) (s : quiche.State) where
    -- If a cached response stays in the cache after two flushes of it, then the first flush has
    -- handed over the beginning of its body, as many bytes as the count of the bytes left has
    -- gone down, and the second flush begins again at the start of the body. The code for a
    -- blocked stream is negative, and headers take no bytes of a body.
    pub flush_response-restarts :
        (cached' cached'' : CachedResponse)
        → let r = flush_response quiche http3 cached s in
          let r' = flush_response quiche http3 cached' r.1 in
          r.0 ≡ some cached'
          → r'.0 ≡ some cached''
          → accepted r'.1 cached.stream_id
            ≡ (accepted s cached.stream_id
                ++ take (cached.bytes_left - cached'.bytes_left) cached.body)
              ++ take (cached'.bytes_left - cached''.bytes_left) cached.body
    flush_response-restarts cached' cached'' h h' =
        let k = cached.stream_id in
        let s' = (flush_response quiche http3 cached s).1 in
        let (id, body, given) = flush_response-Starts k cached cached' s h in
        let (id', body', given') = flush_response-Starts k cached' cached'' s' h' in
        ground (arith, id, body, given, given')
