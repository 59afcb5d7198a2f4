-- ===== src/Logger/Delivery.antt =====
-- Every message that is logged is printed once, in order.
use quicsend.Base.{
  ◌≡◌, refl, List, [], ◌∷◌, ◌++◌, append-nil, append_assoc, Bool, true, false, not, ◌||◌, inl, inr,
  ◌⊎◌, arith, if◌then◌else◌,
}
use quicsend.Logger.{
  LogLevel, LogEntry, Logger, is_empty, log, log_stream, swap, passing, process_log_queue, Place,
  testing, evaluating, falling_asleep, asleep, awake, ended, notify, holds_mutex, State,
  thread_step, Action, logs, terminates, steps, wakes, act, run, new_logger, destroy,
}

passing-append :
    (level : LogLevel) (xs ys : List LogEntry)
    → passing level (xs ++ ys) ≡ passing level xs ++ passing level ys
unfolding passing
passing-append level [] ys = refl
passing-append level (x ∷ xs) ys = ground (arith, passing-append level xs ys)

-- Messages are in the queue, taken out of it only while the thread processes, or printed.
record Accounted (level : LogLevel) (s : State) : Type 0 where
  same_level : s.logger.current_log_level ≡ level
  all :
      (s.logger.printed ++ passing level s.logger.logs_to_process)
        ++ passing level s.logger.log_queue
      ≡ passing level s.logger.logged
  enabled : passing level s.logger.logged ≡ s.logger.logged
  nothing_taken : (s.place ≡ awake) ⊎ (s.logger.logs_to_process ≡ [])

module _ (level : LogLevel) where
  log-Accounted :
      (entry : LogEntry) (s : State) (place : Place)
      → ((s.place ≡ awake) → (place ≡ awake))
      → Accounted level s
      → Accounted level (record { logger = log_stream entry s.logger; place = place })
  unfolding log_stream log passing
  log-Accounted entry s place same a = record {
    same_level = ground (arith, a.same_level);
    all = ground (
      arith,
      a.all,
      a.same_level,
      passing-append level s.logger.log_queue (entry ∷ []),
      passing-append level s.logger.logged (entry ∷ []),
      append_assoc (s.logger.printed ++ passing level s.logger.logs_to_process)
          (passing level s.logger.log_queue) (passing level (entry ∷ [])),
    );
    enabled =
        ground (arith, a.enabled, a.same_level, passing-append level s.logger.logged (entry ∷ []));
    nothing_taken = elim a.nothing_taken [ inl e ↦ inl (same e) | inr e ↦ inr (ground arith) ];
  }

  -- A step that leaves the logger.
  moved-Accounted :
      (lg : Logger) (p q : Place)
      → lg.logs_to_process ≡ []
      → Accounted level (record { logger = lg; place = p })
      → Accounted level (record { logger = lg; place = q })
  moved-Accounted lg p q none_taken a = record {
    same_level = a.same_level;
    all = a.all;
    enabled = a.enabled;
    nothing_taken = inr none_taken;
  }

  if-Accounted :
      (b : Bool) (s t : State)
      → Accounted level s
      → Accounted level t
      → Accounted level (if b then s else t)
  if-Accounted true s t h k = h
  if-Accounted false s t h k = k

  swap-Accounted :
      (lg : Logger) (p : Place)
      → lg.logs_to_process ≡ []
      → Accounted level (record { logger = lg; place = p })
      → Accounted level (record { logger = swap lg; place = awake })
  unfolding swap passing
  swap-Accounted lg p none_taken a = record {
    same_level = a.same_level;
    all = rw none_taken (
        ground (
          arith,
          a.all,
          none_taken,
          append-nil lg.printed,
          append-nil (lg.printed ++ passing level lg.log_queue),
        ));
    enabled = a.enabled;
    nothing_taken = inl refl;
  }

  process-Accounted :
      (lg : Logger) (p q : Place)
      → Accounted level (record { logger = lg; place = p })
      → Accounted level (record { logger = process_log_queue lg; place = q })
  unfolding process_log_queue passing
  process-Accounted lg p q a = record {
    same_level = a.same_level;
    all = rw (a.same_level, append-nil (lg.printed ++ passing level lg.logs_to_process)) a.all;
    enabled = a.enabled;
    nothing_taken = inr refl;
  }

  -- Where the thread is not about to process, it has taken nothing.
  taken :
      (lg : Logger) (p : Place)
      → ((p ≡ awake) → ⊥)
      → Accounted level (record { logger = lg; place = p })
      → lg.logs_to_process ≡ []
  taken lg p other a = elim a.nothing_taken [ inl e ↦ absurd (other e) | inr e ↦ e ]

  thread_step-Accounted :
      (p : Place) (lg : Logger)
      → Accounted level (record { logger = lg; place = p })
      → Accounted level (thread_step (record { logger = lg; place = p }))
  unfolding thread_step
  thread_step-Accounted testing lg a =
      moved-Accounted lg testing (if lg.terminated then ended else evaluating)
        (taken lg testing (λ e. ground arith) a) a
  thread_step-Accounted evaluating lg a =
      let none_taken = taken lg evaluating (λ e. ground arith) a in
      if-Accounted (lg.terminated || not (is_empty lg.log_queue)) _ _
        (swap-Accounted lg evaluating none_taken a)
        (moved-Accounted lg evaluating falling_asleep none_taken a)
  thread_step-Accounted falling_asleep lg a =
      moved-Accounted lg falling_asleep asleep (taken lg falling_asleep (λ e. ground arith) a) a
  thread_step-Accounted asleep lg a = a
  thread_step-Accounted awake lg a = process-Accounted lg awake testing a
  thread_step-Accounted ended lg a = a

  notify-Accounted :
      (p : Place) (lg : Logger)
      → Accounted level (record { logger = lg; place = p })
      → Accounted level (record { logger = lg; place = notify p })
  notify-Accounted testing lg a = a
  notify-Accounted evaluating lg a = a
  notify-Accounted falling_asleep lg a = a
  notify-Accounted asleep lg a =
      moved-Accounted lg asleep evaluating (taken lg asleep (λ e. ground arith) a) a
  notify-Accounted awake lg a = a
  notify-Accounted ended lg a = a

  act-Accounted : (action : Action) (s : State) → Accounted level s → Accounted level (act action s)
  unfolding act
  act-Accounted (logs entry) s a = if-Accounted (holds_mutex s.place) s _ a (
      notify-Accounted s.place (log_stream entry s.logger)
        (log-Accounted entry s s.place (λ e. e) a))
  act-Accounted terminates s a =
      notify-Accounted s.place (record s.logger { terminated = true })
        (record {
          same_level = a.same_level;
          all = a.all;
          enabled = a.enabled;
          nothing_taken = a.nothing_taken;
        })
  act-Accounted steps s a = thread_step-Accounted s.place s.logger a
  act-Accounted wakes s a = notify-Accounted s.place s.logger a

  run-Accounted :
      (actions : List Action) (s : State) → Accounted level s → Accounted level (run actions s)
  unfolding run
  run-Accounted [] s a = a
  run-Accounted (action ∷ rest) s a = run-Accounted rest (act action s) (act-Accounted action s a)

  new_logger-Accounted : Accounted level (new_logger level)
  unfolding passing
  new_logger-Accounted = record {
    same_level = refl;
    all = refl;
    enabled = refl;
    nothing_taken = inr refl;
  }

  -- After any sequence of messages, calls of Terminate, steps of the thread and wake-ups, from
  -- the new logger and at one level of logging: if the thread has ended, then the destructor
  -- leaves exactly the messages that were logged printed, each once and in their order.
  pub destroy_prints :
      (actions : List Action)
      → (run actions (new_logger level)).place ≡ ended
      → (destroy (run actions (new_logger level)).logger).printed
        ≡ (run actions (new_logger level)).logger.logged
  unfolding destroy swap process_log_queue passing
  destroy_prints actions e =
      let s = run actions (new_logger level) in
      let a = run-Accounted actions (new_logger level) new_logger-Accounted in
      let none_taken = taken s.logger s.place (λ (f : s.place ≡ awake). ground arith) a in
      ground (arith, a.all, a.enabled, a.same_level, none_taken, append-nil s.logger.printed)
