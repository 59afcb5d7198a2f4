-- ===== src/Examples/Logger.antt =====
-- The logger at concrete inputs.
use quicsend.Base.{◌≡◌, refl, List, [], ◌∷◌, arith, replicate}
use quicsend.Logger.{
  LogEntry, info, error, log, log_stream, swap, passing, process_log_queue, falling_asleep, asleep,
  ended, State, thread_step, Action, logs, terminates, steps, act, run, new_logger, destroy,
}
use quicsend.Logger.Delivery.{destroy_prints}
use quicsend.Logger.Wakeup.{terminates_ends, terminates_lost}

abbrev failure : LogEntry
failure = record { level = error; message = "failed" }

-- One message is printed by the thread, and one is left to the destructor.
abbrev two_messages : List Action
two_messages = logs failure ∷ steps ∷ steps ∷ steps ∷ logs failure ∷ terminates ∷ steps ∷ []

two_messages-ended : (run two_messages (new_logger info)).place ≡ ended
unfolding run act thread_step log_stream log swap process_log_queue passing
two_messages-ended = refl

two_messages-logged : (run two_messages (new_logger info)).logger.logged ≡ failure ∷ failure ∷ []
unfolding run act thread_step log_stream log swap process_log_queue passing
two_messages-logged = refl

destroy_prints_example :
    (destroy (run two_messages (new_logger info)).logger).printed
    ≡ (run two_messages (new_logger info)).logger.logged
destroy_prints_example = destroy_prints info two_messages two_messages-ended

abbrev sleeping : State
sleeping = record { logger = (new_logger info).logger; place = asleep }

terminates_ends_example : (run (terminates ∷ steps ∷ steps ∷ steps ∷ []) sleeping).place ≡ ended
terminates_ends_example = terminates_ends sleeping (λ e. ground arith)

abbrev two_steps : List Action
two_steps = steps ∷ steps ∷ []

dozing : (run two_steps (new_logger info)).place ≡ falling_asleep
unfolding run act thread_step
dozing = refl

terminates_lost_example :
    (run (terminates ∷ steps ∷ replicate 9 steps) (run two_steps (new_logger info))).place ≡ asleep
terminates_lost_example = terminates_lost (run two_steps (new_logger info)) 9 dozing
