-- ===== src/Connection/Transfers/Offer.antt =====
-- The sends of `SendBody`: a new body is handed over or waits.
use quicsend.Base.{
  ℕ, ◌≤◌, ◌≡◌, refl, sym, ◌∙◌, ◌⊎◌, inl, inr, List, [], ◌++◌, append-nil, append_assoc, Bool, true,
  false, arith, ℤ, pos, negsuc, pos_part, is_neg, length, take, drop, take-append-drop, take_all,
  take_nil, ltb, ◌==◌, Bool-cases, if◌then◌else◌, insert,
}
use quicsend.Quiche.{Quiche}
use quicsend.Quiche.Laws.{BodyLaws}
use quicsend.Connection.Streams.{OutgoingStream}
use quicsend.Connection.Transfers.{get_outgoing_stream, offer_body}
use quicsend.Connection.Transfers.Delivery.{pending, pending-insert}

pub pos_part_of_neg : (r : ℤ) → is_neg r ≡ true → pos_part r ≡ 0
pos_part_of_neg (pos n) h = cc
pos_part_of_neg (negsuc n) h = refl

module _ (quiche : Quiche) (laws : BodyLaws quiche) (http3 : Bool) where
  open laws use {accepted, finished}

  abbrev sent : ℕ → List ℕ → Bool → quiche.State → ℤ × quiche.State
  sent id body fin s = quiche.h3_send_body http3 id body fin s

  -- Refused or not, a send takes the prefix that its result counts.
  pub accepted-sent :
      (id k : ℕ) (body : List ℕ) (fin : Bool) (s : quiche.State)
      → accepted (sent id body fin s).1 k
        ≡ accepted s k ++ (if id == k then take (pos_part (sent id body fin s).0) body else [])
  accepted-sent id k body fin s = elim (Bool-cases (is_neg (sent id body fin s).0)) [
    | inl neg ↦ ground (
      arith,
      laws.body_refused http3 id body fin s k neg,
      pos_part_of_neg (sent id body fin s).0 neg,
      append-nil (accepted s k),
    )
    | inr taken ↦
        ground (arith, laws.body_taken http3 id body fin s k taken, append-nil (accepted s k))
  ]

  pub finished-sent :
      (id k : ℕ) (body : List ℕ) (s : quiche.State)
      → finished (sent id body false s).1 k ≡ finished s k
  finished-sent id k body s = elim (Bool-cases (is_neg (sent id body false s).0)) [
    | inl neg ↦ (laws.body_refused http3 id body false s k neg).1
    | inr taken ↦ ground (arith, laws.body_taken http3 id body false s k taken)
  ]

  finished-other :
      (id k : ℕ) (body : List ℕ) (fin : Bool) (s : quiche.State)
      → (id == k) ≡ false
      → finished (sent id body fin s).1 k ≡ finished s k
  finished-other id k body fin s ne = elim (Bool-cases (is_neg (sent id body fin s).0)) [
    | inl neg ↦ (laws.body_refused http3 id body fin s k neg).1
    | inr taken ↦ ground (arith, laws.body_taken http3 id body fin s k taken)
  ]

  abbrev Offered :
      ℕ
      → ℕ
      → List ℕ
      → List (ℕ × OutgoingStream)
      → quiche.State
      → Bool × List (ℕ × OutgoingStream) × quiche.State
      → Type 0
  Offered id k body streams s r =
      (accepted r.2 k ++ pending k r.1
        ≡ (accepted s k ++ pending k streams) ++ (if id == k then body else []))
      × (finished r.2 k ≡ true → (finished s k ≡ true) ⊎ (pending k r.1 ≡ []))

  module _ (id k : ℕ) (body : List ℕ) (streams : List (ℕ × OutgoingStream)) (s : quiche.State)
      (idle : pending id streams ≡ []) where
    own_idle : (id == k) ≡ true → pending k streams ≡ []
    own_idle own = let e : id ≡ k = ground arith in rw e at idle

    -- What was not taken waits in the stream of `id`.
    rest_waits-Offered :
        (stream : OutgoingStream)
        → let r = sent id body false s in
          Offered id k body streams s (
            true,
            insert id
                (record stream { send_offset = 0; buffer = drop (pos_part r.0) body })
                streams,
            r.1,
          )
    rest_waits-Offered stream =
        let n = pos_part (sent id body false s).0 in
        let waits =
          pending-insert id k (record stream { send_offset = 0; buffer = drop n body }) streams in
        let fin =
          λ (h : finished (sent id body false s).1 k ≡ true). sym (finished-sent id k body s) ∙ h in
        elim (Bool-cases (id == k)) [
          | inl own ↦ (
            rw (
              accepted-sent id k body false s,
              waits,
              own,
              own_idle own,
              append-nil (accepted s k),
              append_assoc (accepted s k) (take n body) (drop n body),
              take-append-drop n body,
            ),
            λ h. inl (fin h),
          )
          | inr other ↦ (
            rw (accepted-sent id k body false s, waits, other)
                (rw (append-nil (accepted s k), append-nil (accepted s k ++ pending k streams))),
            λ h. inl (fin h),
          )
        ]

    all_taken-Offered :
        let r = sent id body false s in
        length body ≤ pos_part r.0
        → (ok : Bool) → Offered id k body streams s (ok, streams, (sent id [] true r.1).1)
    all_taken-Offered all ok =
        let n = pos_part (sent id body false s).0 in
        let s' = (sent id body false s).1 in
        elim (Bool-cases (id == k)) [
          | inl own ↦ (
            rw
                (
                  accepted-sent id k [] true s',
                  accepted-sent id k body false s,
                  own,
                  own_idle own,
                  take_nil (pos_part (sent id [] true s').0),
                  take_all n body all,
                )
                (simp append-nil),
            λ h. inr (own_idle own),
          )
          | inr other ↦ (
            rw (accepted-sent id k [] true s', accepted-sent id k body false s, other)
                (simp append-nil),
            λ h. inl (sym (finished-other id k [] true s' other ∙ finished-sent id k body s) ∙ h),
          )
        ]

    offer_body-Offered : Offered id k body streams s (offer_body quiche http3 id body streams s)
    unfolding offer_body
    offer_body-Offered =
        let n = pos_part (sent id body false s).0 in
        let s' = (sent id body false s).1 in
        elim (Bool-cases (ltb n (length body))) [
          | inl part ↦ rw part (rest_waits-Offered (get_outgoing_stream id streams))
          | inr all ↦ elim (Bool-cases (is_neg (sent id [] true s').0)) [
            | inl neg ↦ rw (all, neg) (all_taken-Offered (ground arith) false)
            | inr fin ↦ rw (all, fin) (all_taken-Offered (ground arith) true)
          ]
        ]

    -- A body offered on a stream on which nothing waits is added, as a whole and in order, to
    -- what the library has accepted followed by what waits on that stream; on every other stream
    -- the two together are left alone.
    pub offer_body_delivers :
        let r = offer_body quiche http3 id body streams s in
        accepted r.2 k ++ pending k r.1
        ≡ (accepted s k ++ pending k streams) ++ (if id == k then body else [])
    offer_body_delivers = offer_body-Offered.0

    -- If nothing waits on the stream on which a body is offered, and the library has a stream as
    -- finished after the sends of SendBody, then it had so before, or nothing waits on that
    -- stream.
    pub offer_body_fin_last :
        finished (offer_body quiche http3 id body streams s).2 k ≡ true
        → (finished s k ≡ true) ⊎ (pending k (offer_body quiche http3 id body streams s).1 ≡ [])
    offer_body_fin_last h = offer_body-Offered.1 h
