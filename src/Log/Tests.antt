-- ===== src/Log/Tests.antt =====
-- The logger at concrete inputs.
use fastvid.Common.{◌≡◌, refl, true, false, some, List, [], ◌∷◌, ◌++◌, map, arith}
use fastvid.Common.Int.{pos}
use fastvid.Text.{Text, codes}
use fastvid.Log.{
  LogLevel, debug, info, System, LoggerState, initial_state, is_debug, ensure_log_file_initialized,
  lines_of, log, current_log_file_path, set_verbose,
}
use fastvid.Log.Paths.{resolve_log_directory, executable_base_name}
use fastvid.Log.Lines.{IsCut, lines_of-IsCut}
use fastvid.Log.Opening.{Operation, write, path, verbose, run, current_log_file_path_lem}
use fastvid.Log.Output.{console_texts, file_texts, printed}
use fastvid.Log.History.{heard, first_use, warning, written_all, written_all-initial_state}
use fastvid.Log.Directory.{current_log_file_path-initial_state, file_for}

abbrev system : System
system = record {
  executable = some (codes "/srv/build/app");
  has_directory = λ t. true;
  can_open = λ t. true;
  clock_compact = codes "20260101_000000";
  clock_text = codes "2026-01-01 00:00:00";
  pid = pos 7;
}

abbrev closed_system : System
closed_system = record system { has_directory = λ t. false }

-- Two lines, the second empty.
abbrev message : Text
message = codes "up\n"

lines_of-message : lines_of message ≡ codes "up" ∷ [] ∷ []
unfolding lines_of fastvid.Log.lines_from fastvid.Log.find fastvid.Log.find_first
lines_of-message = refl

lines_of-IsCut_example : IsCut message (lines_of message)
lines_of-IsCut_example = lines_of-IsCut message

abbrev operations : List (System × Operation)
operations = (closed_system, write info message) ∷ (system, verbose false) ∷ (system, path) ∷ []

current_log_file_path_lem_example :
    let first = current_log_file_path system initial_state in
    let later = current_log_file_path closed_system (run operations first.0.0) in
    (later.1 ≡ first.1) × (later.0.1 ≡ [])
current_log_file_path_lem_example =
    current_log_file_path_lem system closed_system operations initial_state

-- A silenced message, then one that finds no directory, and one that would.
abbrev history : List (System × Operation)
history =
    (system, verbose false)
    ∷ (system, write debug message)
    ∷ (closed_system, write info message)
    ∷ (system, write debug message)
    ∷ (system, write info message)
    ∷ []

written_all-initial_state_example :
    let written = written_all history initial_state in
    let texts = map (printed system info) (lines_of message) in
    (console_texts written ≡ warning closed_system ++ (texts ++ (texts ++ [])))
    × (file_texts written ≡ [])
unfolding heard first_use resolve_log_directory fastvid.Log.Paths.parent_directory
    fastvid.Log.Paths.find_last_of fastvid.Log.Paths.base_name
written_all-initial_state_example = written_all-initial_state history

current_log_file_path-initial_state_example :
    let path = file_for system (codes "/srv/logs") (codes "app") in
    (current_log_file_path system initial_state).1 ≡ path
current_log_file_path-initial_state_example =
    current_log_file_path-initial_state system (codes "/srv") (codes "build") (codes "app") refl
      (omega arith) (omega arith)
      (omega arith, (omega arith, (omega arith, (omega arith, (omega arith, tt)))))
      (omega arith, (omega arith, (omega arith, tt)))
