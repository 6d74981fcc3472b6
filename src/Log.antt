-- ===== src/Log.antt =====
-- sclient/src/common/log/Logger.cpp: lines for the console and for a file, which is opened at the first
-- call. ServerLog has the server's logger.
pub mod Paths
pub mod Entry
mod Search
mod Lines
mod Opening
pub mod Output
pub mod History
mod Directory
mod Tests
use fastvid.Common.{
  ℕ, zero, suc, ◌+◌, ◌-◌, Bool, true, false, not, ◌&&◌, Option, none, some, List, [], ◌∷◌, ◌++◌,
  length, map, take, drop, leb, ◌==◌, if◌then◌else◌,
}
use fastvid.Common.Int.{ℤ}
use fastvid.Text.{Text, codes, to_string_int}
use Paths.{executable_base_name, resolve_log_directory}

-- `LogLevel`
pub data LogLevel : Type 0 where
  debug info warn error : LogLevel

-- `ToString`
abbrev pub level_name : LogLevel → Text
level_name debug = codes "DEBUG"
level_name error = codes "ERROR"
level_name info = codes "INFO"
level_name warn = codes "WARN"

-- Where a text goes.
pub data Sink : Type 0 where
  out err file : Sink

-- The static variables; of the stream, whether it is open.
pub record LoggerState : Type 0 where
  pub verbose : Bool
  pub file_open : Bool
  pub log_file_path : Text
  pub initialized : Bool
  pub warning_printed : Bool

abbrev pub initial_state : LoggerState
initial_state = record {
  verbose = true;
  file_open = false;
  log_file_path = [];
  initialized = false;
  warning_printed = false;
}

-- What a call learns from the system: the program's path, whether a directory is there once it was
-- tried to make it, whether a file opens, the clock in two formats, and the process.
pub record System : Type 0 where
  pub executable : Option Text
  pub has_directory : Text → Bool
  pub can_open : Text → Bool
  pub clock_compact : Text  -- %Y%m%d_%H%M%S
  pub clock_text : Text  -- %F %T
  pub pid : ℤ

-- `FormatPrefix`
abbrev pub format_prefix : System → LogLevel → Text
format_prefix sys level = sys.clock_text ++ (codes "[" ++ (level_name level ++ codes "]"))

-- `OutputStreamForLevel`
abbrev pub output_stream_for_level : LogLevel → Sink
output_stream_for_level error = err
output_stream_for_level debug = out
output_stream_for_level info = out
output_stream_for_level warn = out

-- `EnsureLogDirectory`
abbrev pub ensure_log_directory : System → Text → Bool
ensure_log_directory sys directory =
    if Paths.is_empty directory then false else sys.has_directory directory

-- The name of the log file.
abbrev pub log_file_name : System → Text
log_file_name sys =
    resolve_log_directory sys.executable
    ++ (codes "/"
        ++ (executable_base_name sys.executable
            ++ (codes "_"
                ++ (sys.clock_compact ++ (codes "_" ++ (to_string_int sys.pid ++ codes ".log"))))))

-- A warning that is printed only once.
abbrev pub warn_once : Text → LoggerState → LoggerState × List (Sink × Text)
warn_once message s =
    if s.warning_printed
    then (s, [])
    else (record s { warning_printed = true }, (err, message) ∷ [])

-- The members after `EnsureLogFileInitialized`, and what it prints.
unfoldable pub ensure_log_file_initialized : System → LoggerState → LoggerState × List (Sink × Text)
ensure_log_file_initialized sys s =
    let started = record s { initialized = true } in
    let directory = resolve_log_directory sys.executable in
    let path = log_file_name sys in
    if s.initialized
    then (s, [])
    else (if not (ensure_log_directory sys directory)
        then warn_once
            (codes "failed to create logs directory '"
              ++ (directory ++ codes "'; file logging disabled\n"))
            started
        else (if sys.can_open path
            then (record started { log_file_path = path; file_open = true }, [])
            else (let (warned, lines) =
                  warn_once
                    (codes "failed to open log file '"
                      ++ (path ++ codes "'; file logging disabled\n"))
                    started in
                (record warned { log_file_path = [] }, lines))))

-- `std::string::find` of one character from `start` on; `none` is npos.
unfoldable pub find_first : ℕ → Text → Option ℕ
find_first c [] = none
find_first c (x ∷ xs) =
    if x == c then some 0 else elim (find_first c xs) [ some i ↦ some (suc i) | none ↦ none ]

unfoldable pub find : ℕ → Text → ℕ → Option ℕ
find c message start = elim (find_first c (drop start message)) [
  | some i ↦ some (start + i)
  | none ↦ none
]

-- The lines that the loop in `Log` cuts the message into, from `start` on.
unfoldable pub lines_from : ℕ → Text → ℕ → List Text
lines_from zero message start = []
lines_from (suc fuel) message start =
    if leb start (length message)
    then elim (find b'\n' message start) [
      | none ↦ drop start message ∷ []
      | some end ↦ take (end - start) (drop start message) ∷ lines_from fuel message (end + 1)
    ]
    else []

-- Every turn moves `start` on, so that this fuel is enough.
unfoldable pub lines_of : Text → List Text
lines_of message = lines_from (length message + 1) message 0

-- What the loop writes for a list of lines.
unfoldable pub write_lines : Sink → Bool → Text → List Text → List (Sink × Text)
write_lines sink file_open prefix [] = []
write_lines sink file_open prefix (line ∷ lines) =
    let rest = write_lines sink file_open prefix lines in
    let text = prefix ++ (line ++ codes "\n") in
    (sink, text) ∷ (if file_open then (file, text) ∷ rest else rest)

-- `level == LogLevel::kDebug`
abbrev pub is_debug : LogLevel → Bool
is_debug debug = true
is_debug info = false
is_debug warn = false
is_debug error = false

-- The rest of `Logger::Log` once the prefix is made: the part that runs under the mutex.
unfoldable pub commit :
    Text → System → LogLevel → Text → LoggerState → LoggerState × List (Sink × Text)
commit prefix sys level message s =
    let (s', warnings) = ensure_log_file_initialized sys s in
    (
      s',
      warnings
          ++ write_lines (output_stream_for_level level) s'.file_open prefix (lines_of message),
    )

-- The test at the start of `Logger::Log`.
abbrev pub is_silent : LogLevel → LoggerState → Bool
is_silent level s = is_debug level && not s.verbose

-- `Logger::Log`
unfoldable pub log : System → LogLevel → Text → LoggerState → LoggerState × List (Sink × Text)
unfolding commit
log sys level message s =
    if is_silent level s then (s, []) else commit (format_prefix sys level) sys level message s

-- `Logger::SetVerbose`
unfoldable pub set_verbose : Bool → LoggerState → LoggerState
set_verbose verbose s = record s { verbose = verbose }

-- `Logger::CurrentLogFilePath`
unfoldable pub current_log_file_path :
    System → LoggerState → (LoggerState × List (Sink × Text)) × Text
current_log_file_path sys s =
    let (s', warnings) = ensure_log_file_initialized sys s in ((s', warnings), s'.log_file_path)
