-- ===== src/Quiche/Arrivals.antt =====
-- What a connection hands to the program as it is polled, as a view of its memory: bookkeeping of
-- the results of quiche_h3_conn_poll and quiche_h3_recv_body.
use quicsend.Base.{
  ℕ, suc, ◌≤◌, ◌≡◌, List, [], ◌∷◌, ◌++◌, Bool, true, false, ◌||◌, pos, String, pos_part, is_neg,
  int_eq, take, ◌==◌, if◌then◌else◌,
}
use quicsend.Quiche.{
  Quiche, Headers, H3Event, Shutdown, headers_event, data_event, finished_event, reset_event,
  priority_update_event, goaway_event, unknown_event,
}

-- A piece of a message: a list of headers, or bytes of the body.
pub data Piece : Type 0 where
  fields : Headers → Piece
  content : List ℕ → Piece

-- The pieces of each stream that has not been finished, and the finished messages with their stream,
-- the oldest first.
pub record Arrivals : Type 0 where
  pub pieces : ℕ → List Piece
  pub messages : List (ℕ × List Piece)

abbrev pub at : ℕ → List Piece → (ℕ → List Piece) → ℕ → List Piece
at id value f = λ k. if id == k then value else f k

abbrev pub add_piece : ℕ → Piece → Arrivals → Arrivals
add_piece id piece v = record v { pieces = at id (v.pieces id ++ piece ∷ []) v.pieces }

-- A stream of which nothing came makes no message.
abbrev pub finish : ℕ → List Piece → Arrivals → Arrivals
finish id [] v = v
finish id (piece ∷ rest) v = record {
  pieces = at id [] v.pieces;
  messages = v.messages ++ (id, piece ∷ rest) ∷ [];
}

-- An event of `quiche_h3_conn_poll`. Data begins with an empty piece, and the bytes are read later.
abbrev pub observe : ℕ → H3Event → Arrivals → Arrivals
observe id (headers_event headers) v = add_piece id (fields headers) v
observe id data_event v = add_piece id (content []) v
observe id finished_event v = finish id (v.pieces id) v
observe id reset_event v = record v { pieces = at id [] v.pieces }
observe id priority_update_event v = v
observe id goaway_event v = v
observe id unknown_event v = v

-- Each call changes the view by what it returns, and the other calls leave it.
pub record EventLaws (quiche : Quiche) : Type 0 where
  pub view : quiche.State → Arrivals
  pub poll_ends :
      (h : Bool) (s : quiche.State)
      → int_eq (quiche.h3_conn_poll h s).0 quiche.err_done || is_neg (quiche.h3_conn_poll h s).0
        ≡ true
      → view (quiche.h3_conn_poll h s).2 ≡ view s
  pub poll_observes :
      (h : Bool) (s : quiche.State)
      → int_eq (quiche.h3_conn_poll h s).0 quiche.err_done || is_neg (quiche.h3_conn_poll h s).0
        ≡ false
      → view (quiche.h3_conn_poll h s).2
        ≡ observe (pos_part (quiche.h3_conn_poll h s).0) (quiche.h3_conn_poll h s).1 (view s)
  pub recv_reads :
      (h : Bool) (id capacity : ℕ) (s : quiche.State)
      → let (len, buffer, t) = quiche.h3_recv_body h id capacity s in
        view t ≡ (
          if (int_eq len quiche.err_done || int_eq len (pos 0)) || is_neg len
          then view s
          else add_piece id (content (take (pos_part len) buffer)) (view s))
  pub shutdown_keeps :
      (id : ℕ) (how : Shutdown) (s : quiche.State)
      → view (quiche.conn_stream_shutdown id how s) ≡ view s
  pub close_keeps :
      (reason : String) (s : quiche.State) → view (quiche.conn_close reason s) ≡ view s

-- There are only so many events and bytes: each event that is polled, and each call that reads bytes,
-- leaves fewer, and no other call adds to them. A read that fails may leave all of them.
pub record FiniteLaws (quiche : Quiche) : Type 0 where
  pub queued : quiche.State → ℕ
  pub unread : quiche.State → ℕ
  pub poll_falls :
      (h : Bool) (s : quiche.State)
      → int_eq (quiche.h3_conn_poll h s).0 quiche.err_done || is_neg (quiche.h3_conn_poll h s).0
        ≡ false
      → (suc (queued (quiche.h3_conn_poll h s).2) ≤ queued s)
        × (unread (quiche.h3_conn_poll h s).2 ≤ unread s)
  pub recv_falls :
      (h : Bool) (id capacity : ℕ) (s : quiche.State)
      → let (len, buffer, t) = quiche.h3_recv_body h id capacity s in
        (queued t ≤ queued s)
        × ((if (int_eq len quiche.err_done || int_eq len (pos 0)) || is_neg len
              then unread t
              else suc (unread t))
            ≤ unread s)
  pub shutdown_adds_none :
      (id : ℕ) (how : Shutdown) (s : quiche.State)
      → (queued (quiche.conn_stream_shutdown id how s) ≤ queued s)
        × (unread (quiche.conn_stream_shutdown id how s) ≤ unread s)
  pub close_adds_none :
      (reason : String) (s : quiche.State)
      → (queued (quiche.conn_close reason s) ≤ queued s)
        × (unread (quiche.conn_close reason s) ≤ unread s)
