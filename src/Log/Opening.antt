-- ===== src/Log/Opening.antt =====
-- The file is opened at the first call, and only there.
use fastvid.Common.{◌≡◌, refl, ◌∙◌, Bool, true, false, List, [], ◌∷◌, arith}
use fastvid.Text.{Text}
use fastvid.Log.{
  LogLevel, LoggerState, System, initial_state, ensure_log_file_initialized, log, set_verbose,
  current_log_file_path,
}

-- Of the static variables, what holds between calls: before the first one no file is open, and a
-- file that is not open has no path.
pub record IsConsistent (s : LoggerState) : Type 0 where
  pub unopened : s.initialized ≡ false → s.file_open ≡ false
  pub no_path : s.file_open ≡ false → s.log_file_path ≡ []

ensure-IsConsistent :
    (sys : System) (s : LoggerState)
    → IsConsistent s
    → IsConsistent (ensure_log_file_initialized sys s).0
      × ((ensure_log_file_initialized sys s).0.initialized ≡ true)
      × ((ensure_log_file_initialized sys s).0.verbose ≡ s.verbose)
unfolding ensure_log_file_initialized
ensure-IsConsistent sys s c = ground arith

-- A second call in any system, also one whose files open where those of the first did not, changes
-- nothing and prints no warning.
pub ensure-ensure :
    (sys sys' : System) (s : LoggerState)
    → let s' = (ensure_log_file_initialized sys s).0 in
      ensure_log_file_initialized sys' s' ≡ (s', [])
unfolding ensure_log_file_initialized
ensure-ensure sys sys' s = ground arith

-- An operation of the logger.
pub data Operation : Type 0 where
  write : LogLevel → Text → Operation
  verbose : Bool → Operation
  path : Operation

-- The state after it.
abbrev pub after : System → Operation → LoggerState → LoggerState
after sys (write level message) s = (log sys level message s).0
after sys (verbose b) s = set_verbose b s
after sys path s = (current_log_file_path sys s).0.0

after-IsConsistent :
    (sys : System) (op : Operation) (s : LoggerState)
    → IsConsistent s
    → IsConsistent (after sys op s)
unfolding log set_verbose current_log_file_path
after-IsConsistent sys (write level message) s c = ground (arith, ensure-IsConsistent sys s c)
after-IsConsistent sys (verbose b) s c = ground arith
after-IsConsistent sys path s c = ground (arith, ensure-IsConsistent sys s c)

unfoldable pub run : List (System × Operation) → LoggerState → LoggerState
run [] s = s
run ((sys, op) ∷ ops) s = run ops (after sys op s)

run-IsConsistent :
    (ops : List (System × Operation)) (s : LoggerState) → IsConsistent s → IsConsistent (run ops s)
unfolding run
run-IsConsistent [] s c = c
run-IsConsistent ((sys, op) ∷ ops) s c =
    run-IsConsistent ops (after sys op s) (after-IsConsistent sys op s c)

-- However the logger is used from the start of the program on, before the first use no file is
-- open, and while no file is open the path of the file is empty.
pub run-initial_state : (ops : List (System × Operation)) → IsConsistent (run ops initial_state)
run-initial_state ops =
    run-IsConsistent ops initial_state (record { unopened = λ _. refl; no_path = λ _. refl })

-- The members that an initialised logger keeps.
record IsSameFile (s s' : LoggerState) : Type 0 where
  initialized : s'.initialized ≡ s.initialized
  file_open : s'.file_open ≡ s.file_open
  log_file_path : s'.log_file_path ≡ s.log_file_path
  warning_printed : s'.warning_printed ≡ s.warning_printed

after-IsSameFile :
    (sys : System) (op : Operation) (s : LoggerState)
    → s.initialized ≡ true
    → IsSameFile s (after sys op s)
unfolding log set_verbose current_log_file_path ensure_log_file_initialized
after-IsSameFile sys (write level message) s e = ground arith
after-IsSameFile sys (verbose b) s e = ground arith
after-IsSameFile sys path s e = ground arith

run-IsSameFile :
    (ops : List (System × Operation)) (s : LoggerState)
    → s.initialized ≡ true
    → IsSameFile s (run ops s)
unfolding run
run-IsSameFile [] s e = record {
  initialized = refl;
  file_open = refl;
  log_file_path = refl;
  warning_printed = refl;
}
run-IsSameFile ((sys, op) ∷ ops) s e =
    let first = after-IsSameFile sys op s e in
    let rest = run-IsSameFile ops (after sys op s) (first.initialized ∙ e) in
    record {
      initialized = rest.initialized ∙ first.initialized;
      file_open = rest.file_open ∙ first.file_open;
      log_file_path = rest.log_file_path ∙ first.log_file_path;
      warning_printed = rest.warning_printed ∙ first.warning_printed;
    }

-- The path that `CurrentLogFilePath` returns is the one that it returns ever after, whatever is
-- logged in between and in whatever system, and a later call prints nothing.
pub current_log_file_path_lem :
    (sys sys' : System) (ops : List (System × Operation)) (s : LoggerState)
    → let first = current_log_file_path sys s in
      let later = current_log_file_path sys' (run ops first.0.0) in
      (later.1 ≡ first.1) × (later.0.1 ≡ [])
unfolding current_log_file_path ensure_log_file_initialized
current_log_file_path_lem sys sys' ops s =
    let started : (ensure_log_file_initialized sys s).0.initialized ≡ true = ground arith in
    let same = run-IsSameFile ops (ensure_log_file_initialized sys s).0 started in
    ground (arith, same.log_file_path, same.initialized, started)
