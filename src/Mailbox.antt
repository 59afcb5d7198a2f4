-- ===== src/Mailbox.antt =====
-- `QuicheMailbox` of src/quicsend_quiche.cpp: a queue of events between the I/O thread and the
-- application. The mutex makes each call one step; the callbacks of `Poll` run after the swap.
pub mod Delivery
use quicsend.Base.{
  List, [], ◌∷◌, ◌++◌, Bool, true, false, not, ◌&&◌, ◌||◌, Option, none, some, ℤ, is_neg,
  if◌then◌else◌,
}

pub record Mailbox (E : Type 0) : Type 0 where
  pub terminated : Bool
  pub events : List E

abbrev pub new_mailbox : {E : Type 0} → Mailbox E
new_mailbox = record { terminated = false; events = [] }

abbrev pub is_empty : {E : Type 0} → List E → Bool
is_empty [] = true
is_empty (e ∷ rest) = false

module _ {E : Type 0} where
  -- `Shutdown`.
  unfoldable pub shutdown : Mailbox E → Mailbox E
  shutdown m = record m { terminated = true }

  -- `Post`.
  unfoldable pub post : E → Mailbox E → Mailbox E
  post event m = record m { events = m.events ++ event ∷ [] }

  abbrev pub each : {S : Type 0} → (E → S → S) → List E → S → S
  each callback [] s = s
  each callback (event ∷ rest) s = each callback rest (callback event s)

  -- `Poll`, at a moment when its wait may end: `none` is a call that goes on waiting. A wait with a
  -- time limit can end whenever the limit passes.
  unfoldable pub poll : {S : Type 0} → (E → S → S) → ℤ → Mailbox E → S → Option (Mailbox E × S)
  poll callback timeout_msec m s =
      let ready = m.terminated || not (is_empty m.events) in
      if is_neg timeout_msec && not ready
      then none
      else if m.terminated || is_empty m.events
      then some (m, s)
      else some (record m { events = [] }, each callback m.events s)
