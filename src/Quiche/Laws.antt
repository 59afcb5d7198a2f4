-- ===== src/Quiche/Laws.antt =====
-- Documented behaviour of the quiche calls, as hypotheses over a view of the library's state.
use quicsend.Base.{
  ℕ, suc, ◌≤◌, ◌≡◌, List, ◌++◌, Bool, true, false, ◌&&◌, ◌||◌, pos_part, is_neg, length, take, ◌==◌,
  if◌then◌else◌,
}
use quicsend.Quiche.{Quiche, Headers}

-- `quiche_h3_send_body` takes a prefix of what it is given: a negative result is a failure that
-- changes nothing, and otherwise the result is the length of that prefix. The stream is finished by
-- a call with `fin` that takes all. `accepted` is what the library has taken for a stream, and
-- `finished` whether the stream has been finished.
pub record BodyLaws (quiche : Quiche) : Type 0 where
  pub accepted : quiche.State → ℕ → List ℕ
  pub finished : quiche.State → ℕ → Bool
  pub body_refused :
      (h : Bool) (id : ℕ) (body : List ℕ) (fin : Bool) (s : quiche.State) (k : ℕ)
      → is_neg (quiche.h3_send_body h id body fin s).0 ≡ true
      → (accepted (quiche.h3_send_body h id body fin s).1 k ≡ accepted s k)
        × (finished (quiche.h3_send_body h id body fin s).1 k ≡ finished s k)
  pub body_fits :
      (h : Bool) (id : ℕ) (body : List ℕ) (fin : Bool) (s : quiche.State)
      → pos_part (quiche.h3_send_body h id body fin s).0 ≤ length body
  pub body_taken :
      (h : Bool) (id : ℕ) (body : List ℕ) (fin : Bool) (s : quiche.State) (k : ℕ)
      → is_neg (quiche.h3_send_body h id body fin s).0 ≡ false
      → (accepted (quiche.h3_send_body h id body fin s).1 k ≡ (
          if id == k
          then accepted s k ++ take (pos_part (quiche.h3_send_body h id body fin s).0) body
          else accepted s k))
        × (finished (quiche.h3_send_body h id body fin s).1 k ≡ (
            if id == k
            then finished s k
              || (fin && (pos_part (quiche.h3_send_body h id body fin s).0 == length body))
            else finished s k))

-- Each packet that `quiche_conn_send` writes is one fewer that it can write before it is driven
-- again: `backlog` counts them.
pub record SendLaws (quiche : Quiche) : Type 0 where
  pub backlog_falls :
      (capacity : ℕ) (s : quiche.State)
      → is_neg (quiche.conn_send capacity s).0.written ≡ false
      → suc (quiche.backlog (quiche.conn_send capacity s).1) ≤ quiche.backlog s

-- `quiche_h3_send_response` takes no bytes of a body, and without `fin` it finishes no stream.
pub record ResponseLaws (quiche : Quiche) (laws : BodyLaws quiche) : Type 0 where
  pub response_open :
      (h : Bool) (id : ℕ) (headers : Headers) (s : quiche.State) (k : ℕ)
      → laws.finished (quiche.h3_send_response h id headers false s).1 k ≡ laws.finished s k
  pub response_sends_no_body :
      (h : Bool) (id : ℕ) (headers : Headers) (fin : Bool) (s : quiche.State) (k : ℕ)
      → laws.accepted (quiche.h3_send_response h id headers fin s).1 k ≡ laws.accepted s k
