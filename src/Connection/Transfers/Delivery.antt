-- ===== src/Connection/Transfers/Delivery.antt =====
-- `FlushTransfers` and the sends of `SendBody` over all streams: what has been handed to the library
-- and what waits make up what was given, in order, on every stream.
use quicsend.Base.{
  ℕ, ◌≡◌, refl, sym, ap, subst, ◌∙◌, ◌≢◌, ◌⊎◌, inl, inr, List, [], ◌∷◌, ◌++◌, Bool, true, false,
  arith, All, ◌==◌, Bool-cases, ==_refl, if◌then◌else◌, erase, insert,
}
use quicsend.Quiche.{Quiche}
use quicsend.Quiche.Laws.{BodyLaws}
use quicsend.Connection.Streams.{OutgoingStream}
use quicsend.Connection.Transfers.{
  Verdict, stop, go_on, completed, transfer_stream, transfer_loop, erase_all, flush_transfers,
}
use quicsend.Connection.Transfers.Stream.{left, transfer_stream-Hands}

-- What waits on a stream.
abbrev pub pending : ℕ → List (ℕ × OutgoingStream) → List ℕ
pending k [] = []
pending k ((j, stream) ∷ rest) = if j == k then left stream else pending k rest

abbrev pub Absent : ℕ → List (ℕ × OutgoingStream) → Type 0
Absent k [] = Unit {0}
Absent k ((j, stream) ∷ rest) = (j ≢ k) × Absent k rest

-- One entry for a key, under the id of its stream.
abbrev pub Keyed : List (ℕ × OutgoingStream) → Type 0
Keyed [] = Unit {0}
Keyed ((j, stream) ∷ rest) = (stream.id ≡ j) × Absent j rest × Keyed rest

pub Verdict-cases : (v : Verdict) → (v ≡ stop) ⊎ ((v ≡ go_on) ⊎ (v ≡ completed))
Verdict-cases stop = inl refl
Verdict-cases go_on = inr (inl refl)
Verdict-cases completed = inr (inr refl)

pending-Absent :
    (k : ℕ) (streams : List (ℕ × OutgoingStream)) → Absent k streams → pending k streams ≡ []
pending-Absent k [] h = refl
pending-Absent k ((j, stream) ∷ rest) h = ground (arith, pending-Absent k rest h.1)

-- Behind another entry a stream is found as before.
pending_behind :
    (j : ℕ) (stream : OutgoingStream) (streams : List (ℕ × OutgoingStream)) (ids : List ℕ)
    → All (λ i. i ≢ j) ids
    → All (λ i. pending i streams ≡ []) ids
    → All (λ i. pending i ((j, stream) ∷ streams) ≡ []) ids
pending_behind j stream streams [] a h = tt
pending_behind j stream streams (i ∷ ids) a h =
    (ground (arith, a.0, h.0), pending_behind j stream streams ids a.1 h.1)

pending-erase :
    (i k : ℕ) (streams : List (ℕ × OutgoingStream))
    → pending k (erase i streams) ≡ (if i == k then [] else pending k streams)
unfolding erase
pending-erase i k [] = ground arith
pending-erase i k ((j, stream) ∷ rest) = ground (arith, pending-erase i k rest)

pub pending-insert :
    (i k : ℕ) (stream : OutgoingStream) (streams : List (ℕ × OutgoingStream))
    → pending k (insert i stream streams) ≡ (if i == k then left stream else pending k streams)
unfolding insert
pending-insert i k stream [] = ground arith
pending-insert i k stream ((j, other) ∷ rest) = ground (arith, pending-insert i k stream rest)

still_empty :
    (i : ℕ) (ids : List ℕ) (streams : List (ℕ × OutgoingStream))
    → All (λ j. pending j streams ≡ []) ids
    → All (λ j. pending j (erase i streams) ≡ []) ids
still_empty i [] streams h = tt
still_empty i (j ∷ ids) streams h =
    (ground (arith, pending-erase i j streams, h.0), still_empty i ids streams h.1)

-- To erase streams on which nothing waits changes nothing of what waits.
pub pending-erase_all :
    (ids : List ℕ) (streams : List (ℕ × OutgoingStream)) (k : ℕ)
    → All (λ i. pending i streams ≡ []) ids
    → pending k (erase_all ids streams) ≡ pending k streams
unfolding erase_all
pending-erase_all [] streams k h = refl
pending-erase_all (i ∷ ids) streams k h =
    pending-erase_all ids (erase i streams) k (still_empty i ids streams h.1)
    ∙ ground (arith, pending-erase i k streams, h.0)

Absent-erase :
    (i k : ℕ) (streams : List (ℕ × OutgoingStream)) → Absent k streams → Absent k (erase i streams)
unfolding erase
Absent-erase i k [] h = tt
Absent-erase i k ((j, stream) ∷ rest) h = ground (arith, Absent-erase i k rest h.1)

Keyed-erase :
    (i : ℕ) (streams : List (ℕ × OutgoingStream)) → Keyed streams → Keyed (erase i streams)
unfolding erase
Keyed-erase i [] w = tt
Keyed-erase i ((j, stream) ∷ rest) w =
    ground (arith, Keyed-erase i rest w.2, Absent-erase i j rest w.1)

Keyed-erase_all :
    (ids : List ℕ) (streams : List (ℕ × OutgoingStream))
    → Keyed streams
    → Keyed (erase_all ids streams)
unfolding erase_all
Keyed-erase_all [] streams w = w
Keyed-erase_all (i ∷ ids) streams w =
    Keyed-erase_all ids (erase i streams) (Keyed-erase i streams w)

module _ (quiche : Quiche) (laws : BodyLaws quiche) (http3 : Bool) where
  open laws use {accepted, finished}

  abbrev pub loop :
      List (ℕ × OutgoingStream) → quiche.State → List (ℕ × OutgoingStream) × List ℕ × quiche.State
  loop streams s = transfer_loop quiche http3 streams s

  -- To prove something of a round of the loop is to prove it of its three ways on.
  loop_cases {ℓ} :
      (P : List (ℕ × OutgoingStream) × List ℕ × quiche.State → Type ℓ) (k : ℕ)
      (stream : OutgoingStream) (rest : List (ℕ × OutgoingStream)) (s : quiche.State)
      → let r = transfer_stream quiche http3 stream s in
        let l = loop rest r.2 in
        P ((k, r.1) ∷ rest, [], r.2)
        → P ((k, r.1) ∷ l.0, l.1, l.2)
        → (r.0 ≡ completed → P ((k, r.1) ∷ l.0, r.1.id ∷ l.1, l.2))
        → P (loop ((k, stream) ∷ rest) s)
  unfolding transfer_loop
  loop_cases P k stream rest s a b c =
      elim (Verdict-cases (transfer_stream quiche http3 stream s).0) [
        | inl e ↦ rw (e, transfer_loop) a
        | inr (inl e) ↦ rw (e, transfer_loop) b
        | inr (inr e) ↦ rw (e, transfer_loop) (c e)
      ]

  -- A stream that has no entry is not touched.
  loop-Absent :
      (streams : List (ℕ × OutgoingStream)) (s : quiche.State) (k : ℕ)
      → Keyed streams
      → Absent k streams
      → Absent k (loop streams s).0
        × (accepted (loop streams s).2 k ≡ accepted s k)
        × (finished (loop streams s).2 k ≡ finished s k)
        × All (λ i. i ≢ k) (loop streams s).1
  unfolding transfer_loop
  loop-Absent [] s k w a = (tt, refl, refl, tt)
  loop-Absent ((j, stream) ∷ rest) s k w a =
      let hands = transfer_stream-Hands quiche laws http3 stream s in
      let s' = (transfer_stream quiche http3 stream s).2 in
      let (absent, bytes, fin, ids) = loop-Absent rest s' k w.2 a.1 in
      let own = hands.apart k (ground arith) in
      let same_id = hands.same_id in
      loop_cases
        (λ r.
          Absent k r.0
          × (accepted r.2 k ≡ accepted s k)
          × (finished r.2 k ≡ finished s k)
          × All (λ i. i ≢ k) r.1)
        j stream rest s ((a.0, a.1), own.0, own.1, tt)
        ((a.0, absent), bytes ∙ own.0, fin ∙ own.1, ids)
        (λ _. ((a.0, absent), bytes ∙ own.0, fin ∙ own.1, (ground arith, ids)))

  abbrev Delivered :
      ℕ
      → List (ℕ × OutgoingStream)
      → quiche.State
      → List (ℕ × OutgoingStream) × List ℕ × quiche.State
      → Type 0
  Delivered k streams s r =
      (accepted r.2 k ++ pending k r.0 ≡ accepted s k ++ pending k streams)
      × (finished r.2 k ≡ true → (finished s k ≡ true) ⊎ (pending k r.0 ≡ []))

  -- A round over the stream of `k`, and then rounds that leave `k` alone.
  own-Delivered :
      (k : ℕ) (stream : OutgoingStream) (rest rest' : List (ℕ × OutgoingStream)) (ids : List ℕ)
      (s s'' : quiche.State)
      → let r = transfer_stream quiche http3 stream s in
        stream.id ≡ k
        → (accepted s'' k ≡ accepted r.2 k) × (finished s'' k ≡ finished r.2 k)
        → Delivered k ((k, stream) ∷ rest) s ((k, r.1) ∷ rest', ids, s'')
  own-Delivered k stream rest rest' ids s s'' id same =
      let hands = transfer_stream-Hands quiche laws http3 stream s in
      let r = transfer_stream quiche http3 stream s in
      let moved =
        subst (λ i. accepted r.2 i ++ left r.1 ≡ accepted s i ++ left stream) id hands.conserved in
      let fin =
        subst (λ i. finished r.2 i ≡ true → (finished s i ≡ true) ⊎ (left r.1 ≡ [])) id
          hands.fin_last in
      rw (==_refl k, same.0) (moved, λ h. fin (sym same.1 ∙ h))

  -- A round over another stream, and then rounds that deliver for `k`.
  other-Delivered :
      (k j : ℕ) (stream : OutgoingStream) (rest : List (ℕ × OutgoingStream)) (s : quiche.State)
      (l : List (ℕ × OutgoingStream) × List ℕ × quiche.State) (ids : List ℕ)
      → let r = transfer_stream quiche http3 stream s in
        stream.id ≢ k
        → (j == k) ≡ false
        → Delivered k rest r.2 l
        → Delivered k ((j, stream) ∷ rest) s ((j, r.1) ∷ l.0, ids, l.2)
  other-Delivered k j stream rest s l ids ne e d =
      let own = (transfer_stream-Hands quiche laws http3 stream s).apart k ne in
      rw e (
        d.0 ∙ ap (λ t. t ++ pending k rest) own.0,
        λ h. elim (d.1 h) [ inl f ↦ inl (sym own.1 ∙ f) | inr p ↦ inr p ],
      )

  loop-Delivered :
      (streams : List (ℕ × OutgoingStream)) (s : quiche.State) (k : ℕ)
      → Keyed streams
      → Delivered k streams s (loop streams s)
  unfolding transfer_loop
  loop-Delivered [] s k w = (refl, λ h. inl h)
  loop-Delivered ((j, stream) ∷ rest) s k w =
      let s' = (transfer_stream quiche http3 stream s).2 in
      let l = loop rest s' in
      let later = loop-Delivered rest s' k w.2 in
      elim (Bool-cases (j == k)) [
        | inl own ↦
            let e : j ≡ k = ground arith in
            let id : stream.id ≡ k = w.0 ∙ e in
            let (_, bytes, fin, _) = loop-Absent rest s' k w.2 (rw e at w.1) in
            loop_cases (Delivered k ((j, stream) ∷ rest) s) j stream rest s
              (rw e (own-Delivered k stream rest rest [] s s' id (refl, refl)))
              (rw e (own-Delivered k stream rest l.0 l.1 s l.2 id (bytes, fin)))
              (λ _. rw e (own-Delivered k stream rest l.0 [] s l.2 id (bytes, fin)))
        | inr other ↦
            let ne : stream.id ≢ k = ground arith in
            loop_cases (Delivered k ((j, stream) ∷ rest) s) j stream rest s
              (other-Delivered k j stream rest s (rest, [], s') [] ne other (refl, λ h. inl h))
              (other-Delivered k j stream rest s l l.1 ne other later)
              (λ _. other-Delivered k j stream rest s l [] ne other later)
      ]

  pub loop-Keyed :
      (streams : List (ℕ × OutgoingStream)) (s : quiche.State)
      → Keyed streams
      → Keyed (loop streams s).0 × All (λ i. pending i (loop streams s).0 ≡ []) (loop streams s).1
  unfolding transfer_loop
  loop-Keyed [] s w = (tt, tt)
  loop-Keyed ((j, stream) ∷ rest) s w =
      let hands = transfer_stream-Hands quiche laws http3 stream s in
      let r = transfer_stream quiche http3 stream s in
      let s' = r.2 in
      let (keyed, empty) = loop-Keyed rest s' w.2 in
      let (absent, _, _, others) = loop-Absent rest s' j w.2 w.1 in
      let id = hands.same_id ∙ w.0 in
      let tail = λ (stream' : OutgoingStream).
        pending_behind j stream' (loop rest s').0 (loop rest s').1 others empty in
      loop_cases (λ r. Keyed r.0 × All (λ i. pending i r.0 ≡ []) r.1) j stream rest s
        ((id, w.1, w.2), tt) ((id, absent, keyed), tail r.1)
        (λ e. ((id, absent, keyed), (rw (id, ==_refl j) (hands.done e), tail r.1)))

  flush_transfers-Delivered :
      (streams : List (ℕ × OutgoingStream)) (s : quiche.State) (k : ℕ)
      → Keyed streams
      → let r = flush_transfers quiche http3 streams s in Delivered k streams s (r.0, [], r.1)
  unfolding flush_transfers
  flush_transfers-Delivered streams s k w =
      let d = loop-Delivered streams s k w in
      let l = loop streams s in rw (pending-erase_all l.1 l.0 k (loop-Keyed streams s w).1) d

  -- For every list of outgoing streams with one entry per stream id, every state of the library
  -- and every stream: what the library has accepted on the stream followed by what still waits
  -- there is the same before and after FlushTransfers, so that no byte is lost, repeated or
  -- reordered.
  pub flush_transfers_delivers :
      (streams : List (ℕ × OutgoingStream)) (s : quiche.State) (k : ℕ)
      → Keyed streams
      → let r = flush_transfers quiche http3 streams s in
        accepted r.1 k ++ pending k r.0 ≡ accepted s k ++ pending k streams
  flush_transfers_delivers streams s k w = (flush_transfers-Delivered streams s k w).0

  -- If the library has a stream as finished after FlushTransfers, then it had so before, or
  -- nothing waits on that stream any more: FIN does not overtake bytes. The list of outgoing
  -- streams has one entry per stream id.
  pub flush_transfers_fin_last :
      (streams : List (ℕ × OutgoingStream)) (s : quiche.State) (k : ℕ)
      → Keyed streams
      → finished (flush_transfers quiche http3 streams s).1 k ≡ true
      → (finished s k ≡ true) ⊎ (pending k (flush_transfers quiche http3 streams s).0 ≡ [])
  flush_transfers_fin_last streams s k w h = (flush_transfers-Delivered streams s k w).1 h

  -- FlushTransfers keeps one entry per stream id, under the id of its stream.
  pub flush_transfers-Keyed :
      (streams : List (ℕ × OutgoingStream)) (s : quiche.State)
      → Keyed streams
      → Keyed (flush_transfers quiche http3 streams s).0
  unfolding flush_transfers
  flush_transfers-Keyed streams s w =
      let l = loop streams s in Keyed-erase_all l.1 l.0 (loop-Keyed streams s w).0
