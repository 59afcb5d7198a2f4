-- ===== src/Mailbox/Delivery.antt =====
-- Events reach the application once, in the order in which they were posted, until `Shutdown`.
use quicsend.Base.{
  ◌≡◌, refl, sym, ap, ◌∙◌, List, [], ◌∷◌, ◌++◌, append-nil, append_assoc, true, Option, none, some,
  arith, ℤ,
}
use quicsend.Mailbox.{Mailbox, shutdown, post, poll, each}

-- A call on the mailbox by some thread.
pub data Call (E : Type 0) : Type 0 where
  posts : E → Call E
  polls : ℤ → Call E
  shuts_down : Call E

module _ {E : Type 0} where
  -- The application of these runs keeps what it is given.
  abbrev keep : E → List E → List E
  keep event log = log ++ event ∷ []

  polled : Option (Mailbox E × List E) → Mailbox E × List E → Mailbox E × List E
  polled none before = before
  polled (some after) before = after

  -- A call that goes on waiting changes nothing.
  unfoldable pub call : Call E → Mailbox E × List E → Mailbox E × List E
  unfolding polled
  call (posts event) (m, log) = (post event m, log)
  call (polls timeout_msec) (m, log) = polled (poll keep timeout_msec m log) (m, log)
  call shuts_down (m, log) = (shutdown m, log)

  pub run : List (Call E) → Mailbox E × List E → Mailbox E × List E
  run [] s = s
  run (c ∷ calls) s = run calls (call c s)

  abbrev pub posted : List (Call E) → List E
  posted [] = []
  posted (posts event ∷ calls) = event ∷ posted calls
  posted (polls timeout_msec ∷ calls) = posted calls
  posted (shuts_down ∷ calls) = posted calls

  each-keep : (events log : List E) → each keep events log ≡ log ++ events
  each-keep [] log = sym (append-nil log)
  each-keep (event ∷ rest) log =
      each-keep rest (log ++ event ∷ []) ∙ append_assoc log (event ∷ []) rest

  -- What was received, and what waits.
  abbrev all_of : Mailbox E × List E → List E
  all_of (m, log) = log ++ m.events

  poll-all_of :
      (timeout_msec : ℤ) (m : Mailbox E) (log : List E)
      → all_of (call (polls timeout_msec) (m, log)) ≡ log ++ m.events
  unfolding call poll
  poll-all_of timeout_msec m log =
      ground (arith, each-keep m.events log, append-nil (log ++ m.events))

  -- Through any sequence of posts, polls and shutdowns, what was received followed by what waits
  -- is what there was at the start followed by all that was posted, in order: nothing is lost,
  -- repeated or overtaken.
  pub run_delivers :
      (calls : List (Call E)) (m : Mailbox E) (log : List E)
      → (run calls (m, log)).1 ++ (run calls (m, log)).0.events ≡ (log ++ m.events) ++ posted calls
  unfolding run call post shutdown
  run_delivers [] m log = sym (append-nil (log ++ m.events))
  run_delivers (posts event ∷ calls) m log =
      run_delivers calls (post event m) log
      ∙ ap (λ t. t ++ posted calls) (sym (append_assoc log m.events (event ∷ [])))
      ∙ append_assoc (log ++ m.events) (event ∷ []) (posted calls)
  run_delivers (polls timeout_msec ∷ calls) m log =
      let (m', log') = call (polls timeout_msec) (m, log) in
      run_delivers calls m' log' ∙ ap (λ t. t ++ posted calls) (poll-all_of timeout_msec m log)
  run_delivers (shuts_down ∷ calls) m log = run_delivers calls (shutdown m) log

  run-terminated :
      (calls : List (Call E)) (m : Mailbox E) (log : List E)
      → m.terminated ≡ true
      → (run calls (m, log)).1 ≡ log
  unfolding run call post shutdown poll
  run-terminated [] m log h = refl
  run-terminated (posts event ∷ calls) m log h = run-terminated calls (post event m) log h
  run-terminated (polls timeout_msec ∷ calls) m log h =
      let same : call (polls timeout_msec) (m, log) ≡ (m, log) = ground arith in
      ap (λ st. (run calls st).1) same ∙ run-terminated calls m log h
  run-terminated (shuts_down ∷ calls) m log h = run-terminated calls (shutdown m) log refl

  -- After Shutdown no event is received any more, whatever waits or is posted.
  pub run-shutdown :
      (calls : List (Call E)) (m : Mailbox E) (log : List E)
      → (run calls (call shuts_down (m, log))).1 ≡ log
  unfolding call shutdown
  run-shutdown calls m log = run-terminated calls (shutdown m) log refl
