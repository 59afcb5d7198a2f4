-- ===== src/Connection/Events/Assembly.antt =====
-- Messages as `ProcessH3Events` puts them together: from the pieces that the library hands over, in
-- whatever order those of different streams come.
use quicsend.Base.{
  ℕ, zero, suc, ◌≡◌, refl, ap, subst, ◌∙◌, inl, inr, List, [], ◌∷◌, ◌++◌, append-nil, append_assoc,
  Bool, ◌||◌, Option, none, some, arith, pos, pos_part, is_neg, int_eq, take, ◌==◌, Bool-cases,
  if◌then◌else◌, lookup, insert, lookup-insert,
}
use quicsend.Quiche.{Quiche}
use quicsend.Quiche.Arrivals.{Piece, fields, content, Arrivals, add_piece, EventLaws}
use quicsend.Connection.Streams.{IncomingStream, new_incoming_stream, on_data}
use quicsend.Connection.Events.{get_incoming_stream, on_headers, recv_loop, max_datagram_recv_size}

-- A message, from its pieces in their order.
abbrev pub add_to : Piece → IncomingStream → IncomingStream
add_to (fields headers) stream = on_headers headers stream
add_to (content bytes) stream = on_data bytes stream

abbrev pub assembled : List Piece → IncomingStream → IncomingStream
assembled [] stream = stream
assembled (piece ∷ rest) stream = assembled rest (add_to piece stream)

abbrev pub message : ℕ × List Piece → IncomingStream
message (id, pieces) = assembled pieces (new_incoming_stream id)

-- The stream of a message that is on its way.
abbrev pub on_its_way : ℕ → List Piece → Option IncomingStream
on_its_way id [] = none
on_its_way id (piece ∷ rest) = some (message (id, piece ∷ rest))

-- The map has the streams of the messages that are on their way.
abbrev pub Waits : Arrivals → List (ℕ × IncomingStream) → Type 0
Waits v incoming = (k : ℕ) → lookup k incoming ≡ on_its_way k (v.pieces k)

-- A stream has so many pieces more, and nothing else has changed.
abbrev pub Adds : ℕ → List Piece → Arrivals → Arrivals → Type 0
Adds id more v v' =
    ((k : ℕ) → v'.pieces k ≡ (if id == k then v.pieces id ++ more else v.pieces k))
    × (v'.messages ≡ v.messages)

assembled-append :
    (xs ys : List Piece) (stream : IncomingStream)
    → assembled (xs ++ ys) stream ≡ assembled ys (assembled xs stream)
assembled-append [] ys stream = refl
assembled-append (x ∷ xs) ys stream = assembled-append xs ys (add_to x stream)

on_its_way-append :
    (id : ℕ) (xs : List Piece) (y : Piece) (ys : List Piece)
    → on_its_way id (xs ++ y ∷ ys) ≡ some (message (id, xs ++ y ∷ ys))
on_its_way-append id [] y ys = refl
on_its_way-append id (x ∷ xs) y ys = refl

pub get_incoming_stream-message :
    (id : ℕ) (pieces : List Piece) (incoming : List (ℕ × IncomingStream))
    → lookup id incoming ≡ on_its_way id pieces
    → get_incoming_stream id incoming ≡ message (id, pieces)
unfolding get_incoming_stream
get_incoming_stream-message id [] incoming h = rw (get_incoming_stream, h) refl
get_incoming_stream-message id (piece ∷ rest) incoming h = rw (get_incoming_stream, h) refl

pub Waits-Adds :
    (id : ℕ) (piece : Piece) (rest : List Piece) (v v' : Arrivals)
    (incoming : List (ℕ × IncomingStream))
    → Adds id (piece ∷ rest) v v'
    → Waits v incoming
    → Waits v' (insert id (assembled (piece ∷ rest) (get_incoming_stream id incoming)) incoming)
Waits-Adds id piece rest v v' incoming adds h k =
    let old = get_incoming_stream-message id (v.pieces id) incoming (h id) in
    elim (Bool-cases (id == k)) [
      | inl own ↦
          let e : id ≡ k = ground arith in
          lookup-insert id k (assembled (piece ∷ rest) (get_incoming_stream id incoming)) incoming
          ∙ ground (
            arith,
            e,
            old,
            adds.0 k,
            on_its_way-append id (v.pieces id) piece rest,
            assembled-append (v.pieces id) (piece ∷ rest) (new_incoming_stream id),
          )
      | inr other ↦
          lookup-insert id k (assembled (piece ∷ rest) (get_incoming_stream id incoming)) incoming
          ∙ ground (arith, other, h k, adds.0 k)
    ]

pub Adds-Adds :
    (id : ℕ) (xs ys : List Piece) (u v w : Arrivals)
    → Adds id xs u v
    → Adds id ys v w
    → Adds id (xs ++ ys) u w
Adds-Adds id xs ys u v w a b = (
  λ k. elim (Bool-cases (id == k)) [
    | inl own ↦ b.0 k ∙ ground (arith, own, a.0 id, append_assoc (u.pieces id) xs ys)
    | inr other ↦ b.0 k ∙ ground (arith, other, a.0 k)
  ],
  b.1 ∙ a.1,
)

module _ (quiche : Quiche) (laws : EventLaws quiche) (http3 : Bool) where
  open laws use {view}

  -- The inner loop reads pieces, and adds them to the stream.
  pub record Read (id : ℕ) (stream stream' : IncomingStream) (s t : quiche.State) : Type 0 where
    pub more : List Piece
    pub adds : Adds id more (view s) (view t)
    pub adds_to : stream' ≡ assembled more stream

  same-Adds : (id : ℕ) (s t : quiche.State) → view t ≡ view s → Adds id [] (view s) (view t)
  same-Adds id s t e = (
    λ k. ap (λ v. v.pieces k) e ∙ ground (arith, append-nil ((view s).pieces id)),
    ap (λ v. v.messages) e,
  )

  nothing-Read :
      (id : ℕ) (stream : IncomingStream) (s t : quiche.State)
      → view t ≡ view s
      → Read id stream stream s t
  nothing-Read id stream s t e = record { more = []; adds = same-Adds id s t e; adds_to = refl }

  pub recv_loop-Read :
      (fuel id : ℕ) (stream stream' : IncomingStream) (s t : quiche.State)
      → recv_loop quiche http3 fuel id stream s ≡ some (stream', t)
      → Read id stream stream' s t
  unfolding recv_loop
  recv_loop-Read zero id stream stream' s t h = absurd (ground (arith, h))
  recv_loop-Read (suc fuel) id stream stream' s t h =
      let (len, buffer, s') = quiche.h3_recv_body http3 id max_datagram_recv_size s in
      let reads = laws.recv_reads http3 id max_datagram_recv_size s in
      elim (Bool-cases (int_eq len quiche.err_done || int_eq len (pos 0))) [
        | inl ended ↦
            let same : ◌≡◌ {A = IncomingStream × quiche.State} (stream, s') (stream', t) =
              ground (arith, h, ended) in
            let start = nothing-Read id stream s s' (reads ∙ ground (arith, ended)) in
            subst (λ r. Read id stream r.0 s r.1) same start
        | inr goes_on ↦ elim (Bool-cases (is_neg len)) [
          | inl failed ↦
              let later =
                recv_loop-Read fuel id stream stream' s' t (ground (arith, h, goes_on, failed)) in
              let unread = same-Adds id s s' (reads ∙ ground (arith, goes_on, failed)) in
              record {
                more = later.more;
                adds = Adds-Adds id [] later.more (view s) (view s') (view t) unread later.adds;
                adds_to = later.adds_to;
              }
          | inr taken ↦
              let bytes = take (pos_part len) buffer in
              let later =
                recv_loop-Read fuel id (on_data bytes stream) stream' s' t
                  (ground (arith, h, goes_on, taken)) in
              let first : view s' ≡ add_piece id (content bytes) (view s) =
                reads ∙ ground (arith, goes_on, taken) in
              record {
                more = content bytes ∷ later.more;
                adds =
                    Adds-Adds id (content bytes ∷ []) later.more (view s) (view s') (view t)
                      (λ k. ap (λ v. v.pieces k) first, ap (λ v. v.messages) first) later.adds;
                adds_to = later.adds_to;
              }
        ]
      ]
