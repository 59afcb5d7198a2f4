-- ===== src/Logger/Wakeup.antt =====
-- `Terminate` and the thread that is to end by it.
use quicsend.Base.{ℕ, zero, suc, ◌≡◌, refl, ◌≢◌, [], ◌∷◌, true, arith, replicate}
use quicsend.Logger.{
  Logger, Place, testing, evaluating, falling_asleep, asleep, awake, ended, State, thread_step,
  swap, process_log_queue, terminates, steps, act, run,
}

ends_at :
    (p : Place) (lg : Logger)
    → p ≢ falling_asleep
    → (run (terminates ∷ steps ∷ steps ∷ steps ∷ []) (record { logger = lg; place = p })).place
      ≡ ended
unfolding run act thread_step swap process_log_queue
ends_at testing lg h = refl
ends_at evaluating lg h = refl
ends_at falling_asleep lg h = absurd (h refl)
ends_at asleep lg h = refl
ends_at awake lg h = refl
ends_at ended lg h = refl

-- Unless the thread is between the test of the condition and its wait, it has ended three steps
-- after a call of Terminate.
pub terminates_ends :
    (s : State)
    → s.place ≢ falling_asleep
    → (run (terminates ∷ steps ∷ steps ∷ steps ∷ []) s).place ≡ ended
terminates_ends s = ends_at s.place s.logger

sleeps_on :
    (n : ℕ) (lg : Logger)
    → (run (replicate n steps) (record { logger = lg; place = asleep })).place ≡ asleep
unfolding run act thread_step
sleeps_on zero lg = refl
sleeps_on (suc n) lg = sleeps_on n lg

lost_at :
    (n : ℕ) (p : Place) (lg : Logger)
    → p ≡ falling_asleep
    → (run (terminates ∷ steps ∷ replicate n steps) (record { logger = lg; place = p })).place
      ≡ asleep
unfolding run act thread_step
lost_at n testing lg e = absurd (ground arith)
lost_at n evaluating lg e = absurd (ground arith)
lost_at n falling_asleep lg e = sleeps_on n (record lg { terminated = true })
lost_at n asleep lg e = absurd (ground arith)
lost_at n awake lg e = absurd (ground arith)
lost_at n ended lg e = absurd (ground arith)

-- If Terminate is called while the thread is between the test of the condition and its wait, then
-- the thread goes to sleep and stays asleep for any number of steps.
pub terminates_lost :
    (s : State) (n : ℕ)
    → s.place ≡ falling_asleep
    → (run (terminates ∷ steps ∷ replicate n steps) s).place ≡ asleep
terminates_lost s n = lost_at n s.place s.logger
