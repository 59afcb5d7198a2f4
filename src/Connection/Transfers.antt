-- ===== src/Connection/Transfers.antt =====
-- `QuicheConnection::FlushTransfers`, and the first half of `QuicheConnection::SendBody`: bodies go
-- to the library as far as it takes them, and the rest waits in an outgoing stream.
pub mod Stream
pub mod Delivery
pub mod Offer
pub mod Refinement
use quicsend.Base.{
  ℕ, ◌+◌, ◌-◌, List, [], ◌∷◌, Bool, true, false, Option, none, some, ℤ, pos_part, is_neg, length,
  drop, ltb, leb, ◌==◌, if◌then◌else◌, lookup, insert, erase,
}
use quicsend.Quiche.{Quiche}
use quicsend.Connection.Streams.{OutgoingStream}

-- `GetOutgoingStream` with `create`: the stream of that id, made where there is none.
unfoldable pub get_outgoing_stream : ℕ → List (ℕ × OutgoingStream) → OutgoingStream
get_outgoing_stream stream_id streams = elim (lookup stream_id streams) [
  | some stream ↦ stream
  | none ↦ record { id = stream_id; send_offset = 0; buffer = [] }
]

-- How the loop of `FlushTransfers` goes on after a stream: `break`, `continue`, or `continue` with
-- the stream among the completed ones.
pub data Verdict : Type 0 where
  stop go_on completed : Verdict

-- The erasures at the end of `FlushTransfers`.
unfoldable pub erase_all : List ℕ → List (ℕ × OutgoingStream) → List (ℕ × OutgoingStream)
erase_all [] streams = streams
erase_all (stream_id ∷ rest) streams = erase_all rest (erase stream_id streams)

module _ (quiche : Quiche) (http3 : Bool) where
  open quiche use {State, h3_send_body}

  -- The empty body with which FIN is sent.
  unfoldable pub send_fin : OutgoingStream → State → Verdict × OutgoingStream × State
  send_fin stream s =
      let (r, s') = h3_send_body http3 stream.id [] true s in
      if is_neg r then (stop, stream, s') else (completed, stream, s')

  -- What follows the send of `remaining` bytes with the result `r`.
  unfoldable pub after_send : ℤ → ℕ → OutgoingStream → State → Verdict × OutgoingStream × State
  after_send r remaining stream s =
      if is_neg r
      then (stop, stream, s)
      else if ltb (pos_part r) remaining
      then (go_on, record stream { send_offset = stream.send_offset + pos_part r }, s)
      else send_fin (record stream { send_offset = 0; buffer = [] }) s

  -- The body of the loop.
  unfoldable pub transfer_stream : OutgoingStream → State → Verdict × OutgoingStream × State
  unfolding after_send
  transfer_stream stream s =
      let remaining = length stream.buffer - stream.send_offset in
      if leb remaining 0
      then send_fin stream s
      else let (r, s') =
          h3_send_body http3 stream.id (drop stream.send_offset stream.buffer) false s in
        after_send r remaining stream s'

  -- The loop: the streams and the state after it, and the ids of the completed streams.
  unfoldable pub transfer_loop :
      List (ℕ × OutgoingStream) → State → List (ℕ × OutgoingStream) × List ℕ × State
  transfer_loop [] s = ([], [], s)
  transfer_loop ((k, stream) ∷ rest) s =
      let (verdict, stream', s') = transfer_stream stream s in
      let (rest', completed_ids, s'') = transfer_loop rest s' in
      elim verdict [
        | stop ↦ ((k, stream') ∷ rest, [], s')
        | go_on ↦ ((k, stream') ∷ rest', completed_ids, s'')
        | completed ↦ ((k, stream') ∷ rest', stream'.id ∷ completed_ids, s'')
      ]

  -- `FlushTransfers`.
  unfoldable pub flush_transfers :
      List (ℕ × OutgoingStream) → State → List (ℕ × OutgoingStream) × State
  unfolding erase_all
  flush_transfers streams s =
      let (streams', completed_ids, s') = transfer_loop streams s in
      (erase_all completed_ids streams', s')

  -- The sends of `SendBody`: `false` where FIN could not be sent.
  unfoldable pub offer_body :
      ℕ → List ℕ → List (ℕ × OutgoingStream) → State → Bool × List (ℕ × OutgoingStream) × State
  offer_body stream_id body streams s =
      let (r, s') = h3_send_body http3 stream_id body false s in
      let rc = pos_part r in
      if ltb rc (length body)
      then (
        true,
        insert stream_id
            (record (get_outgoing_stream stream_id streams) {
              send_offset = 0;
              buffer = drop rc body;
            })
            streams,
        s',
      )
      else let (r', s'') = h3_send_body http3 stream_id [] true s' in
        if is_neg r' then (false, streams, s'') else (true, streams, s'')
