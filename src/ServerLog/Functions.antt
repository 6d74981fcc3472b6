-- ===== src/ServerLog/Functions.antt =====
-- sserver/src/common/log/Logger.cpp: the functions that the server's logger runs, on the types and the
-- standard functions of `Log`.
pub mod Same
pub mod Entry
use fastvid.Common.{
  ℕ, zero, suc, ◌+◌, ◌-◌, Bool, true, false, not, ◌&&◌, Option, none, some, List, [], ◌∷◌, ◌++◌,
  length, take, drop, leb, ◌==◌, if◌then◌else◌,
}
use fastvid.Text.{Text, codes, to_string_int}
use fastvid.Log.{
  LogLevel, debug, info, warn, error, LoggerState, System, Sink, out, err, file, find, is_debug,
}
use fastvid.Log.Paths.{is_empty, equal_text, find_last_of}

-- `ToString`
abbrev pub level_name : LogLevel → Text
level_name debug = codes "DEBUG"
level_name error = codes "ERROR"
level_name info = codes "INFO"
level_name warn = codes "WARN"

abbrev pub initial_state : LoggerState
initial_state = record {
  verbose = true;
  file_open = false;
  log_file_path = [];
  initialized = false;
  warning_printed = false;
}

-- `ParentDirectory`
pub parent_directory : Text → Text
parent_directory path = elim (find_last_of b'/' path) [
  | none ↦ []
  | some separator ↦ if separator == 0 then codes "/" else take separator path
]

-- `BaseName`
pub base_name : Text → Text
base_name path = elim (find_last_of b'/' path) [
  | none ↦ path
  | some separator ↦ if leb (length path) (separator + 1) then [] else drop (separator + 1) path
]

-- `ExecutableBaseName`, of what readlink yields for the running program; `none` is its failure.
pub executable_base_name : Option Text → Text
executable_base_name none = codes "stream_server"
executable_base_name (some full_path) =
    if is_empty full_path then codes "stream_server" else elim (find_last_of b'/' full_path) [
      | none ↦ full_path
      | some separator ↦
          if leb (length full_path) (separator + 1)
          then full_path
          else drop (separator + 1) full_path
    ]

-- `ExecutablePath`
abbrev pub executable_path : Option Text → Text
executable_path none = []
executable_path (some path) = path

-- `ResolveLogDirectory`
pub resolve_log_directory : Option Text → Text
resolve_log_directory link =
    let executable_dir = parent_directory (executable_path link) in
    let project_root_dir = parent_directory executable_dir in
    if is_empty (executable_path link)
    then codes "logs"
    else (if is_empty executable_dir
        then codes "logs"
        else (if equal_text (base_name executable_dir) (codes "build")
            then (if is_empty project_root_dir
                then codes "logs"
                else project_root_dir ++ codes "/logs")
            else codes "logs"))

-- `FormatPrefix`
abbrev pub format_prefix : System → LogLevel → Text
format_prefix sys level = sys.clock_text ++ (codes "[" ++ (level_name level ++ codes "]"))

-- `OutputStreamForLevel`
abbrev pub output_stream_for_level : LogLevel → Sink
output_stream_for_level error = err
output_stream_for_level debug = out
output_stream_for_level info = out
output_stream_for_level warn = out

-- `EnsureLogDirectory`
abbrev pub ensure_log_directory : System → Text → Bool
ensure_log_directory sys directory =
    if is_empty directory then false else sys.has_directory directory

-- The name of the log file.
abbrev pub log_file_name : System → Text
log_file_name sys =
    resolve_log_directory sys.executable
    ++ (codes "/"
        ++ (executable_base_name sys.executable
            ++ (codes "_"
                ++ (sys.clock_compact ++ (codes "_" ++ (to_string_int sys.pid ++ codes ".log"))))))

-- A warning that is printed only once.
abbrev pub warn_once : Text → LoggerState → LoggerState × List (Sink × Text)
warn_once message s =
    if s.warning_printed
    then (s, [])
    else (record s { warning_printed = true }, (err, message) ∷ [])

-- The members after `EnsureLogFileInitialized`, and what it prints.
pub ensure_log_file_initialized : System → LoggerState → LoggerState × List (Sink × Text)
ensure_log_file_initialized sys s =
    let started = record s { initialized = true } in
    let directory = resolve_log_directory sys.executable in
    let path = log_file_name sys in
    if s.initialized
    then (s, [])
    else (if not (ensure_log_directory sys directory)
        then warn_once
            (codes "failed to create logs directory '"
              ++ (directory ++ codes "'; file logging disabled\n"))
            started
        else (if sys.can_open path
            then (record started { log_file_path = path; file_open = true }, [])
            else (let (warned, lines) =
                  warn_once
                    (codes "failed to open log file '"
                      ++ (path ++ codes "'; file logging disabled\n"))
                    started in
                (record warned { log_file_path = [] }, lines))))

-- The lines that the loop in `Log` cuts the message into, from `start` on.
pub lines_from : ℕ → Text → ℕ → List Text
lines_from zero message start = []
lines_from (suc fuel) message start =
    if leb start (length message)
    then elim (find b'\n' message start) [
      | none ↦ drop start message ∷ []
      | some end ↦ take (end - start) (drop start message) ∷ lines_from fuel message (end + 1)
    ]
    else []

-- Every turn moves `start` on, so that this fuel is enough.
pub lines_of : Text → List Text
lines_of message = lines_from (length message + 1) message 0

-- What the loop writes for a list of lines.
pub write_lines : Sink → Bool → Text → List Text → List (Sink × Text)
write_lines sink file_open prefix [] = []
write_lines sink file_open prefix (line ∷ lines) =
    let rest = write_lines sink file_open prefix lines in
    let text = prefix ++ (line ++ codes "\n") in
    (sink, text) ∷ (if file_open then (file, text) ∷ rest else rest)

-- The test at the start of `Logger::Log`.
abbrev pub is_silent : LogLevel → LoggerState → Bool
is_silent level s = is_debug level && not s.verbose

-- The rest of `Logger::Log` once the prefix is made: the part that runs under the mutex.
pub commit : Text → System → LogLevel → Text → LoggerState → LoggerState × List (Sink × Text)
commit prefix sys level message s =
    let (s', warnings) = ensure_log_file_initialized sys s in
    (
      s',
      warnings
          ++ write_lines (output_stream_for_level level) s'.file_open prefix (lines_of message),
    )

-- `Logger::Log`
pub log : System → LogLevel → Text → LoggerState → LoggerState × List (Sink × Text)
unfolding commit
log sys level message s =
    if is_silent level s then (s, []) else commit (format_prefix sys level) sys level message s

-- `Logger::SetVerbose`
unfoldable pub set_verbose : Bool → LoggerState → LoggerState
set_verbose verbose s = record s { verbose = verbose }

-- `Logger::CurrentLogFilePath`
pub current_log_file_path : System → LoggerState → (LoggerState × List (Sink × Text)) × Text
current_log_file_path sys s =
    let (s', warnings) = ensure_log_file_initialized sys s in ((s', warnings), s'.log_file_path)
