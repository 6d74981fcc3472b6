-- ===== src/Log/History.antt =====
-- Everything that the logger writes, over any sequence of uses from the start of the program on.
use fastvid.Common.{
  ◌≡◌, refl, sym, ap, ap₂, ◌∙◌, Bool, true, false, not, ◌&&◌, Option, none, some, List, [], ◌∷◌,
  ◌++◌, map, append_assoc, arith, Bool-cases, inl, inr, if◌then◌else◌,
}
use fastvid.Text.{Text, codes}
use fastvid.Log.{
  LogLevel, LoggerState, System, Sink, out, err, file, initial_state, is_debug,
  ensure_log_directory, log_file_name, ensure_log_file_initialized, lines_of, log, set_verbose,
  current_log_file_path,
}
use fastvid.Log.Paths.{resolve_log_directory}
use fastvid.Log.Opening.{Operation, write, verbose, path, after}
use fastvid.Log.Output.{
  file_texts, console_texts, printed, log_lem, log-initialized, ensure-initialized,
}

-- What one use writes, and what a sequence of uses does.
abbrev pub written : System → Operation → LoggerState → List (Sink × Text)
written sys (write level message) s = (log sys level message s).1
written sys (verbose b) s = []
written sys path s = (current_log_file_path sys s).0.1

unfoldable pub written_all : List (System × Operation) → LoggerState → List (Sink × Text)
written_all [] s = []
written_all ((sys, op) ∷ ops) s = written sys op s ++ written_all ops (after sys op s)

-- The description. The lines of the messages that are not silenced, each with its prefix:
unfoldable pub heard : Bool → List (System × Operation) → List Text
heard loud [] = []
heard loud ((sys, write level message) ∷ ops) =
    (if is_debug level && not loud then [] else map (printed sys level) (lines_of message))
    ++ heard loud ops
heard loud ((sys, verbose b) ∷ ops) = heard b ops
heard loud ((sys, path) ∷ ops) = heard loud ops

-- the system at the first use that opens the file, if there is one;
unfoldable pub first_use : Bool → List (System × Operation) → Option System
first_use loud [] = none
first_use loud ((sys, write level message) ∷ ops) =
    if is_debug level && not loud then first_use loud ops else some sys
first_use loud ((sys, verbose b) ∷ ops) = first_use b ops
first_use loud ((sys, path) ∷ ops) = some sys

-- whether the file opens there, and what is warned of if it does not.
abbrev pub opens : System → Bool
opens sys =
    ensure_log_directory sys (resolve_log_directory sys.executable)
    && sys.can_open (log_file_name sys)

abbrev pub warning : System → List Text
warning sys =
    if ensure_log_directory sys (resolve_log_directory sys.executable)
    then (if sys.can_open (log_file_name sys)
        then []
        else (codes "failed to open log file '"
            ++ (log_file_name sys ++ codes "'; file logging disabled\n"))
          ∷ [])
    else (codes "failed to create logs directory '"
        ++ (resolve_log_directory sys.executable ++ codes "'; file logging disabled\n"))
      ∷ []

pub console_texts-append :
    (xs ys : List (Sink × Text)) → console_texts (xs ++ ys) ≡ console_texts xs ++ console_texts ys
unfolding console_texts
console_texts-append [] ys = refl
console_texts-append ((file, t) ∷ xs) ys = console_texts-append xs ys
console_texts-append ((out, t) ∷ xs) ys = ap (λ ts. t ∷ ts) (console_texts-append xs ys)
console_texts-append ((err, t) ∷ xs) ys = ap (λ ts. t ∷ ts) (console_texts-append xs ys)

pub file_texts-append :
    (xs ys : List (Sink × Text)) → file_texts (xs ++ ys) ≡ file_texts xs ++ file_texts ys
unfolding file_texts
file_texts-append [] ys = refl
file_texts-append ((file, t) ∷ xs) ys = ap (λ ts. t ∷ ts) (file_texts-append xs ys)
file_texts-append ((out, t) ∷ xs) ys = file_texts-append xs ys
file_texts-append ((err, t) ∷ xs) ys = file_texts-append xs ys

-- Once the logger is initialised.
initialized_all :
    (ops : List (System × Operation)) (s : LoggerState)
    → s.initialized ≡ true
    → (console_texts (written_all ops s) ≡ heard s.verbose ops)
      × (file_texts (written_all ops s) ≡ (if s.file_open then heard s.verbose ops else []))
unfolding written_all heard console_texts file_texts set_verbose current_log_file_path
initialized_all [] s e = ground arith
initialized_all ((sys, write level message) ∷ ops) s e =
    let same : (log sys level message s).0 ≡ s =
      ground (arith, log-initialized sys level message s e) in
    let (console, texts) = log_lem sys level message s e in
    let (console', texts') = initialized_all ops s e in
    let rest : file_texts (written sys (write level message) s ++ written_all ops s)
        ≡ (if s.file_open then heard s.verbose ((sys, write level message) ∷ ops) else []) =
      file_texts-append (log sys level message s).1 (written_all ops s)
      ∙ ap₂ ◌++◌ texts texts'
      ∙ ground arith in
    rw same (
      console_texts-append (log sys level message s).1 (written_all ops s)
          ∙ ap₂ ◌++◌ console console',
      rest,
    )
initialized_all ((sys, verbose b) ∷ ops) s e =
    ground (arith, initialized_all ops (set_verbose b s) (ground arith))
initialized_all ((sys, path) ∷ ops) s e =
    ground (arith, ensure-initialized sys s e, initialized_all ops s e)

-- Before the first use that opens the file.
pub record IsUnused (s : LoggerState) : Type 0 where
  pub initialized : s.initialized ≡ false
  pub file_open : s.file_open ≡ false
  pub warning_printed : s.warning_printed ≡ false

pub ensure-IsUnused :
    (sys : System) (s : LoggerState)
    → IsUnused s
    → let (s', lines) = ensure_log_file_initialized sys s in
      (s'.initialized ≡ true)
      × (s'.verbose ≡ s.verbose)
      × (s'.file_open ≡ opens sys)
      × (console_texts lines ≡ warning sys)
      × (file_texts lines ≡ [])
unfolding ensure_log_file_initialized console_texts file_texts
ensure-IsUnused sys s u = ground (arith, u.initialized, u.file_open, u.warning_printed)

-- The first message that is not silenced is as one after the initialisation.
log-IsUnused :
    (sys : System) (level : LogLevel) (message : Text) (s : LoggerState)
    → IsUnused s
    → (is_debug level && not s.verbose) ≡ false
    → let (s', lines) = ensure_log_file_initialized sys s in
      log sys level message s ≡ (s', lines ++ (log sys level message s').1)
unfolding log
log-IsUnused sys level message s u loud =
    let (started, same, _, _, _) = ensure-IsUnused sys s u in
    let again = ensure-initialized sys (ensure_log_file_initialized sys s).0 started in
    rw (again, same, loud) refl

-- What a history writes, given the system at the first use and the lines heard: to the console, and
-- to the file.
abbrev pub on_console : Option System → List Text → List Text
on_console none texts = texts
on_console (some sys) texts = warning sys ++ texts

abbrev pub in_file : Option System → List Text → List Text
in_file none texts = []
in_file (some sys) texts = if opens sys then texts else []

-- From the use that opens the file on: what it writes, then the rest.
opening_all :
    (sys : System) (s : LoggerState) (ops : List (System × Operation))
    → IsUnused s
    → let (s', lines) = ensure_log_file_initialized sys s in
      let ws = lines ++ written_all ops s' in
      (console_texts ws ≡ warning sys ++ heard s.verbose ops)
      × (file_texts ws ≡ (if opens sys then heard s.verbose ops else []))
opening_all sys s ops u =
    let (s', lines) = ensure_log_file_initialized sys s in
    let (started, same, opened, warned, none_yet) = ensure-IsUnused sys s u in
    let (console, texts) = initialized_all ops s' started in
    (
      console_texts-append lines (written_all ops s')
          ∙ ap₂ ◌++◌ warned (console ∙ ap (λ loud. heard loud ops) same),
      file_texts-append lines (written_all ops s')
          ∙ ap₂ ◌++◌ none_yet
              (texts ∙ ap₂ (λ is_open loud. if is_open then heard loud ops else []) opened same),
    )

-- A message that opens the file, with the uses after it.
message-IsUnused :
    (sys : System) (level : LogLevel) (message : Text) (ops : List (System × Operation))
    (s : LoggerState)
    → IsUnused s
    → (is_debug level && not s.verbose) ≡ false
    → let (s', lines) = ensure_log_file_initialized sys s in
      let all = (sys, write level message) ∷ ops in written_all all s ≡ lines ++ written_all all s'
unfolding written_all
message-IsUnused sys level message ops s u loud =
    let (s', lines) = ensure_log_file_initialized sys s in
    let (started, _, _, _, _) = ensure-IsUnused sys s u in
    let first = log-IsUnused sys level message s u loud in
    let same : (log sys level message s').0 ≡ s' =
      ground (arith, log-initialized sys level message s' started) in
    ap₂ ◌++◌ (ap (λ r. r.1) first)
      (ap (λ r. written_all ops r.0) first ∙ ap (written_all ops) (sym same))
    ∙ append_assoc lines (log sys level message s').1 (written_all ops (log sys level message s').0)

first_use-loud :
    (sys : System) (level : LogLevel) (message : Text) (ops : List (System × Operation)) (b : Bool)
    → (is_debug level && not b) ≡ false
    → first_use b ((sys, write level message) ∷ ops) ≡ some sys
unfolding first_use
first_use-loud sys level message ops b loud = rw loud refl

-- The other uses, each as what the rest is.
path-message :
    (sys : System) (ops : List (System × Operation)) (s : LoggerState)
    → let (s', lines) = ensure_log_file_initialized sys s in
      let all = (sys, path) ∷ ops in
      (written_all all s ≡ lines ++ written_all ops s')
      × (heard s.verbose all ≡ heard s.verbose ops)
      × (first_use s.verbose all ≡ some sys)
unfolding written_all heard first_use current_log_file_path
path-message sys ops s = (refl, refl, refl)

verbose-message :
    (sys : System) (b : Bool) (ops : List (System × Operation)) (s : LoggerState)
    → let all = (sys, verbose b) ∷ ops in
      (written_all all s ≡ written_all ops (set_verbose b s))
      × (heard s.verbose all ≡ heard (set_verbose b s).verbose ops)
      × (first_use s.verbose all ≡ first_use (set_verbose b s).verbose ops)
unfolding written_all heard first_use set_verbose
verbose-message sys b ops s = (refl, refl, refl)

set_verbose-IsUnused : (b : Bool) (s : LoggerState) → IsUnused s → IsUnused (set_verbose b s)
unfolding set_verbose
set_verbose-IsUnused b s u = ground (arith, u.initialized, u.file_open, u.warning_printed)

written_all-nil :
    (s : LoggerState)
    → (console_texts (written_all [] s) ≡ on_console (first_use s.verbose []) (heard s.verbose []))
      × (file_texts (written_all [] s) ≡ in_file (first_use s.verbose []) (heard s.verbose []))
unfolding written_all first_use heard console_texts file_texts
written_all-nil s = (refl, refl)

-- A debug message without the verbose flag.
log-silent :
    (sys : System) (level : LogLevel) (message : Text) (s : LoggerState)
    → (is_debug level && not s.verbose) ≡ true
    → log sys level message s ≡ (s, [])
unfolding log
log-silent sys level message s silent = rw silent refl

silent-message :
    (sys : System) (level : LogLevel) (message : Text) (ops : List (System × Operation))
    (s : LoggerState)
    → (is_debug level && not s.verbose) ≡ true
    → let all = (sys, write level message) ∷ ops in
      (written_all all s ≡ written_all ops s)
      × (heard s.verbose all ≡ heard s.verbose ops)
      × (first_use s.verbose all ≡ first_use s.verbose ops)
unfolding written_all heard first_use
silent-message sys level message ops s silent =
    let same = log-silent sys level message s silent in
    (
      ap₂ ◌++◌ (ap (λ r. r.1) same) (ap (λ r. written_all ops r.0) same),
      rw silent refl,
      rw silent refl,
    )

-- From an unused logger on.
unused_all :
    (ops : List (System × Operation)) (s : LoggerState)
    → IsUnused s
    → (console_texts (written_all ops s)
        ≡ on_console (first_use s.verbose ops) (heard s.verbose ops))
      × (file_texts (written_all ops s) ≡ in_file (first_use s.verbose ops) (heard s.verbose ops))
unused_all [] s u = written_all-nil s
unused_all ((sys, write level message) ∷ ops) s u =
    elim (Bool-cases (is_debug level && not s.verbose)) [
      | inl silent ↦
          let (same, texts, first) = silent-message sys level message ops s silent in
          rw (same, texts, first) (unused_all ops s u)
      | inr loud ↦
          rw
            (
              first_use-loud sys level message ops s.verbose loud,
              message-IsUnused sys level message ops s u loud,
            )
            (opening_all sys s ((sys, write level message) ∷ ops) u)
    ]
unused_all ((sys, verbose b) ∷ ops) s u =
    let (same, texts, first) = verbose-message sys b ops s in
    rw (same, texts, first) (unused_all ops (set_verbose b s) (set_verbose-IsUnused b s u))
unused_all ((sys, path) ∷ ops) s u =
    let (same, texts, first) = path-message sys ops s in
    rw (same, texts, first) (opening_all sys s ops u)

-- Over any sequence of uses from the start of the program on, each in a system of its own, the
-- console has the lines of all messages that are not silenced, in order and each with its prefix,
-- after one warning if at the first use that is not a silenced message or a change of the verbose
-- flag the directory is not there or the file does not open; nothing else is printed, however often
-- later uses would fail or succeed. The file has exactly the same lines if it opened there, those
-- of that first use included, and nothing otherwise.
pub written_all-initial_state :
    (ops : List (System × Operation))
    → let written = written_all ops initial_state in
      (console_texts written ≡ on_console (first_use true ops) (heard true ops))
      × (file_texts written ≡ in_file (first_use true ops) (heard true ops))
written_all-initial_state ops =
    unused_all ops initial_state
      (record { initialized = refl; file_open = refl; warning_printed = refl })
