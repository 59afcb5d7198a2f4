-- ===== src/Logger.antt =====
-- `Logger` of src/quicsend_tools.cpp and include/quicsend_tools.hpp: a queue of messages, and the
-- thread that prints them. Each action is what happens while one thread holds the mutex, or between
-- two such moments.
pub mod Delivery
pub mod Wakeup
use Prim.Native.String.{◌++◌ as str_append}
use quicsend.Base.{ℕ, List, [], ◌∷◌, ◌++◌, Bool, true, false, not, ◌||◌, String, leb, if◌then◌else◌}

pub data LogLevel : Type 0 where
  debug info warn error : LogLevel

abbrev pub level_code : LogLevel → ℕ
level_code debug = 0
level_code info = 1
level_code warn = 2
level_code error = 3

pub record LogEntry : Type 0 where
  pub level : LogLevel
  pub message : String

-- `printed` is what the callback or the console has been given, oldest first, and `logged` what the
-- calls of `Log` have put into the queue.
pub record Logger : Type 0 where
  pub log_queue : List LogEntry
  pub logs_to_process : List LogEntry
  pub current_log_level : LogLevel
  pub terminated : Bool
  pub printed : List LogEntry
  pub logged : List LogEntry

abbrev pub is_enabled : LogLevel → LogLevel → Bool
is_enabled current level = leb (level_code current) (level_code level)

unfoldable pub set_log_level : LogLevel → Logger → Logger
set_log_level level lg = record lg { current_log_level = level }

-- `Log`, but for its notification.
unfoldable pub log : LogEntry → Logger → Logger
log entry lg = record lg {
  log_queue = lg.log_queue ++ entry ∷ [];
  logged = lg.logged ++ entry ∷ [];
}

-- `~LogStream` of `Debug()`, `Info()`, `Warn()` and `Error()`: only an enabled stream is logged.
unfoldable pub log_stream : LogEntry → Logger → Logger
unfolding log
log_stream entry lg = if is_enabled lg.current_log_level entry.level then log entry lg else lg

-- `debug_log`, which quiche calls for each line once `EnableQuicheDebugLogging` has set it.
unfoldable pub debug_log : String → Logger → Logger
unfolding log_stream
debug_log line lg = log_stream (record { level = info; message = str_append "QuicheLog: " line }) lg

-- `LogsToProcess.swap(LogQueue)`.
unfoldable pub swap : Logger → Logger
swap lg = record lg { log_queue = lg.logs_to_process; logs_to_process = lg.log_queue }

-- The entries that the loop of `ProcessLogQueue` prints.
unfoldable pub passing : LogLevel → List LogEntry → List LogEntry
passing current [] = []
passing current (entry ∷ rest) =
    if is_enabled current entry.level then entry ∷ passing current rest else passing current rest

-- `ProcessLogQueue`.
unfoldable pub process_log_queue : Logger → Logger
unfolding passing
process_log_queue lg = record lg {
  printed = lg.printed ++ passing lg.current_log_level lg.logs_to_process;
  logs_to_process = [];
}

abbrev pub is_empty : List LogEntry → Bool
is_empty [] = true
is_empty (entry ∷ rest) = false

-- Where the thread is in `RunLogger`: at the test of the loop; about to evaluate the condition of
-- the wait, with the mutex; about to wait, with the mutex still; waiting; about to process; at the
-- end.
pub data Place : Type 0 where
  testing evaluating falling_asleep asleep awake ended : Place

pub record State : Type 0 where
  pub logger : Logger
  pub place : Place

-- `notify_one`: a thread that waits evaluates the condition again.
abbrev pub notify : Place → Place
notify asleep = evaluating
notify place = place

-- The next step of the thread: none while it waits or has ended.
unfoldable pub thread_step : State → State
unfolding swap process_log_queue
thread_step s = elim s.place [
  | testing ↦ record s { place = if s.logger.terminated then ended else evaluating }
  | evaluating ↦
      if s.logger.terminated || not (is_empty s.logger.log_queue)
      then record { logger = swap s.logger; place = awake }
      else record s { place = falling_asleep }
  | falling_asleep ↦ record s { place = asleep }
  | asleep ↦ s
  | awake ↦ record { logger = process_log_queue s.logger; place = testing }
  | ended ↦ s
]

-- Whether the thread holds the mutex.
abbrev pub holds_mutex : Place → Bool
holds_mutex evaluating = true
holds_mutex falling_asleep = true
holds_mutex _ = false

-- What happens: a message is logged by another thread, `Terminate` is called, the thread goes on,
-- or it wakes without a notification.
pub data Action : Type 0 where
  logs : LogEntry → Action
  terminates steps wakes : Action

-- `Log` waits for the mutex: while the thread has it, the call has not happened yet. `Terminate`
-- does not take the mutex.
unfoldable pub act : Action → State → State
unfolding log_stream
act (logs entry) s =
    if holds_mutex s.place
    then s
    else record { logger = log_stream entry s.logger; place = notify s.place }
act terminates s = record { logger = record s.logger { terminated = true }; place = notify s.place }
act steps s = thread_step s
act wakes s = record s { place = notify s.place }

unfoldable pub run : List Action → State → State
run [] s = s
run (action ∷ rest) s = run rest (act action s)

abbrev pub new_logger : LogLevel → State
new_logger level = record {
  logger = record {
    log_queue = [];
    logs_to_process = [];
    current_log_level = level;
    terminated = false;
    printed = [];
    logged = [];
  };
  place = testing;
}

-- What `~Logger` does once the thread is joined.
unfoldable pub destroy : Logger → Logger
unfolding swap process_log_queue
destroy lg = process_log_queue (swap lg)
