-- ===== src/ServerLog/Functions/Same.antt =====
-- The server's logger against the client's.
use fastvid.Common.{
  ℕ, zero, suc, ◌+◌, ◌≡◌, refl, Bool, Option, none, some, List, [], ◌∷◌, arith, length,
  Option-cases, inl, inr,
}
use fastvid.Text.{Text}
use fastvid.Log
use fastvid.Log.{LogLevel, debug, info, warn, error, LoggerState, System, Sink}
use fastvid.Log.Paths
use fastvid.ServerLog.Functions.{
  log, commit, current_log_file_path, ensure_log_file_initialized, executable_base_name,
  resolve_log_directory, lines_from, lines_of, write_lines, parent_directory, base_name,
}

executable_base_name-eq :
    (link : Option Text) → executable_base_name link ≡ Paths.executable_base_name link
unfolding executable_base_name Paths.executable_base_name
executable_base_name-eq none = refl
executable_base_name-eq (some path) = refl

resolve_log_directory-eq :
    (link : Option Text) → resolve_log_directory link ≡ Paths.resolve_log_directory link
unfolding resolve_log_directory Paths.resolve_log_directory parent_directory base_name
    Paths.parent_directory Paths.base_name
resolve_log_directory-eq none = refl
resolve_log_directory-eq (some path) = refl

pub ensure_log_file_initialized-eq :
    (sys : System) (s : LoggerState)
    → ensure_log_file_initialized sys s ≡ Log.ensure_log_file_initialized sys s
unfolding ensure_log_file_initialized Log.ensure_log_file_initialized
ensure_log_file_initialized-eq sys s =
    rw (resolve_log_directory-eq sys.executable, executable_base_name-eq sys.executable) refl

lines_from-eq :
    (fuel : ℕ) (message : Text) (start : ℕ)
    → lines_from fuel message start ≡ Log.lines_from fuel message start
unfolding lines_from Log.lines_from
lines_from-eq zero message start = refl
lines_from-eq (suc fuel) message start = elim (Option-cases (Log.find b'\n' message start)) [
  | inl last ↦ ground arith
  | inr (end, more) ↦ ground (arith, lines_from-eq fuel message (end + 1))
]

write_lines-eq :
    (sink : Sink) (file_open : Bool) (prefix : Text) (lines : List Text)
    → write_lines sink file_open prefix lines ≡ Log.write_lines sink file_open prefix lines
unfolding write_lines Log.write_lines
write_lines-eq sink file_open prefix [] = refl
write_lines-eq sink file_open prefix (line ∷ lines) =
    rw (write_lines-eq sink file_open prefix lines) refl

lines_of-eq : (message : Text) → lines_of message ≡ Log.lines_of message
unfolding lines_of Log.lines_of
lines_of-eq message = lines_from-eq (length message + 1) message 0

pub commit-eq :
    (prefix : Text) (sys : System) (level : LogLevel) (message : Text) (s : LoggerState)
    → commit prefix sys level message s ≡ Log.commit prefix sys level message s
unfolding commit Log.commit
commit-eq prefix sys level message s =
    rw (ensure_log_file_initialized-eq sys s, lines_of-eq message, write_lines-eq) refl

-- The server's logger does what the client's does, which is written for itself: the same lines, to
-- the same places, and the same state, for every level, message and system; and the same path of the
-- log file.
pub log-eq :
    (sys : System) (level : LogLevel) (message : Text) (s : LoggerState)
    → (log sys level message s ≡ Log.log sys level message s)
      × (current_log_file_path sys s ≡ Log.current_log_file_path sys s)
unfolding log Log.log current_log_file_path Log.current_log_file_path
log-eq sys level message s = (
  rw (ensure_log_file_initialized-eq sys s, lines_of-eq message, write_lines-eq) refl,
  rw (ensure_log_file_initialized-eq sys s) refl,
)
