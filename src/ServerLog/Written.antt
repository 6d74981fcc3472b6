-- ===== src/ServerLog/Written.antt =====
-- What the server's logger has written, whatever its threads did.
use fastvid.Common.{
  ◌≡◌, refl, sym, ap, ap₂, ◌∙◌, Bool, true, false, Option, none, some, List, [], ◌∷◌, ◌++◌, map,
  if◌then◌else◌, append-nil, append_assoc,
}
use fastvid.Text.{Text, codes}
use fastvid.Log
use fastvid.Log.{
  LogLevel, System, LoggerState, Sink, lines_of, write_lines, output_stream_for_level,
}
use fastvid.Log.Output.{console_texts, file_texts, write_lines-texts, ensure-initialized}
use fastvid.Log.History.{
  opens, warning, on_console, in_file, console_texts-append, file_texts-append, IsUnused,
  ensure-IsUnused,
}
use fastvid.ServerLog.Functions.{commit, set_verbose}
use fastvid.ServerLog.Functions.Same.{ensure_log_file_initialized-eq, commit-eq}
use fastvid.ServerLog.{Pending, Event, logged, verbose, path, Server, start_server, Reach}
use mathlib.Core.List.{Perm}
use fastvid.ServerLog.Requested.{requested, taken, requested-Perm}
use fastvid.ServerLog.Serial.{replay, replay-history}

-- The lines of a call, each with the call's prefix.
abbrev pub texts_of : Pending → List Text
texts_of p = map (λ line. p.prefix ++ (line ++ codes "\n")) (lines_of p.message)

-- The lines of calls, of which the newest comes first.
unfoldable pub committed : List Pending → List Text
committed [] = []
committed (p ∷ calls) = committed calls ++ texts_of p

abbrev pub earliest : Option System → System → System
earliest none sys = sys
earliest (some first) sys = first

-- The system at the first use that opens the file; the events have the newest first.
unfoldable pub opener : List Event → Option System
opener [] = none
opener (logged sys p ∷ events) = some (earliest (opener events) sys)
opener (verbose b ∷ events) = opener events
opener (path sys ∷ events) = some (earliest (opener events) sys)

-- Of the static variables, what the first use leaves.
IsAfter : Option System → List Text → LoggerState → Type 0
IsAfter none texts s = IsUnused s × (texts ≡ [])
IsAfter (some sys) texts s = (s.initialized ≡ true) × (s.file_open ≡ opens sys)

record IsWritten (first : Option System) (texts : List Text) (s : LoggerState)
    (out : List (Sink × Text)) : Type 0 where
  console : console_texts out ≡ on_console first texts
  into_file : file_texts out ≡ in_file first texts
  state : IsAfter first texts s

if-nil : (b : Bool) (xs : List Text) → xs ≡ [] → (if b then xs else []) ≡ []
if-nil true xs e = e
if-nil false xs e = refl

if-append :
    (b : Bool) (xs ys : List Text)
    → (if b then xs else []) ++ (if b then ys else []) ≡ (if b then xs ++ ys else [])
if-append true xs ys = refl
if-append false xs ys = refl

ensure-IsWritten :
    (first : Option System) (texts : List Text) (sys : System) (s : LoggerState)
    (out : List (Sink × Text))
    → IsWritten first texts s out
    → let (s', warnings) = Log.ensure_log_file_initialized sys s in
      IsWritten (some (earliest first sys)) texts s' (out ++ warnings)
unfolding IsAfter
ensure-IsWritten none texts sys s out w =
    let (unused, nothing) = w.state in
    let (started, same, opened, warned, none_yet) = ensure-IsUnused sys s unused in
    record {
      console =
          console_texts-append out (Log.ensure_log_file_initialized sys s).1
          ∙ ap₂ ◌++◌ (w.console ∙ nothing) warned
          ∙ sym (append-nil (warning sys))
          ∙ ap (λ ts. warning sys ++ ts) (sym nothing);
      into_file =
          file_texts-append out (Log.ensure_log_file_initialized sys s).1
          ∙ ap₂ ◌++◌ w.into_file none_yet
          ∙ sym (if-nil (opens sys) texts nothing);
      state = (started, opened);
    }
ensure-IsWritten (some a) texts sys s out w =
    rw (ensure-initialized sys s w.state.0, append-nil out) w

write-IsWritten :
    (a : System) (texts : List Text) (level : LogLevel) (prefix : Text) (lines : List Text)
    (s : LoggerState) (out : List (Sink × Text))
    → IsWritten (some a) texts s out
    → IsWritten
        (some a)
        (texts ++ map (λ line. prefix ++ (line ++ codes "\n")) lines)
        s
        (out ++ write_lines (output_stream_for_level level) s.file_open prefix lines)
unfolding IsAfter
write-IsWritten a texts level prefix lines s out w =
    let (console, file) = write_lines-texts level s.file_open prefix lines in
    let new = map (λ line. prefix ++ (line ++ codes "\n")) lines in
    let ws = write_lines (output_stream_for_level level) s.file_open prefix lines in
    record {
      console =
          console_texts-append out ws
          ∙ ap₂ ◌++◌ w.console console
          ∙ append_assoc (warning a) texts _;
      into_file =
          file_texts-append out ws
          ∙ ap₂ ◌++◌ w.into_file file
          ∙ ap (λ b. in_file (some a) texts ++ (if b then new else [])) w.state.1
          ∙ if-append (opens a) texts new;
      state = w.state;
    }

set_verbose-IsWritten :
    (first : Option System) (texts : List Text) (b : Bool) (s : LoggerState)
    (out : List (Sink × Text))
    → IsWritten first texts s out
    → IsWritten first texts (set_verbose b s) out
unfolding IsAfter set_verbose
set_verbose-IsWritten none texts b s out w =
    let (unused, nothing) = w.state in
    record {
      console = w.console;
      into_file = w.into_file;
      state = (
        record {
          initialized = unused.initialized;
          file_open = unused.file_open;
          warning_printed = unused.warning_printed;
        },
        nothing,
      );
    }
set_verbose-IsWritten (some a) texts b s out w = record {
  console = w.console;
  into_file = w.into_file;
  state = w.state;
}

commit-IsWritten :
    (first : Option System) (texts : List Text) (sys : System) (p : Pending) (s : LoggerState)
    (out : List (Sink × Text))
    → IsWritten first texts s out
    → let (s', writes) = commit p.prefix sys p.level p.message s in
      IsWritten (some (earliest first sys)) (texts ++ texts_of p) s' (out ++ writes)
unfolding Log.commit
commit-IsWritten first texts sys p s out w =
    let (s', warnings) = Log.ensure_log_file_initialized sys s in
    let lines =
      write_lines (output_stream_for_level p.level) s'.file_open p.prefix (lines_of p.message) in
    rw (commit-eq p.prefix sys p.level p.message s, sym (append_assoc out warnings lines))
      (write-IsWritten (earliest first sys) texts p.level p.prefix (lines_of p.message) s'
        (out ++ warnings) (ensure-IsWritten first texts sys s out w))

replay-IsWritten :
    (events : List Event)
    → IsWritten (opener events) (committed (taken events)) (replay events).0 (replay events).1
unfolding replay opener committed taken IsAfter console_texts file_texts
replay-IsWritten [] = record {
  console = refl;
  into_file = refl;
  state = (record { initialized = refl; file_open = refl; warning_printed = refl }, refl);
}
replay-IsWritten (logged sys p ∷ events) =
    commit-IsWritten (opener events) (committed (taken events)) sys p (replay events).0
      (replay events).1 (replay-IsWritten events)
replay-IsWritten (verbose b ∷ events) =
    set_verbose-IsWritten (opener events) (committed (taken events)) b (replay events).0
      (replay events).1 (replay-IsWritten events)
replay-IsWritten (path sys ∷ events) = rw (ensure_log_file_initialized-eq sys (replay events).0) (
    ensure-IsWritten (opener events) (committed (taken events)) sys (replay events).0
      (replay events).1 (replay-IsWritten events))

-- Whatever the threads do, whenever no call of `Log` holds the mutex: the console has the lines of
-- the calls that took the mutex, call after call in the order in which they took it, never mixed
-- and each with the prefix of its call, after one warning if the first of these calls and of the
-- uses of `CurrentLogFilePath` found no directory or could not open the file; nothing else is
-- printed. The file has exactly the same lines if it opened there, and nothing otherwise. The
-- calls that took the mutex and those that wait for it are together exactly the calls made that
-- are not silenced, with the prefix made then: none is lost or logged twice.
pub output-committed :
    {x : Server}
    → (r : Reach start_server x) → x.held ≡ false
    → (console_texts x.output ≡ on_console (opener x.history) (committed (taken x.history)))
      × (file_texts x.output ≡ in_file (opener x.history) (committed (taken x.history)))
      × Perm (requested r) (x.waiting ++ taken x.history)
output-committed {x} r free =
    let w = replay-IsWritten x.history in
    let same = ap (λ q. q.1) (replay-history r free) in
    (
      sym (ap console_texts same) ∙ w.console,
      sym (ap file_texts same) ∙ w.into_file,
      requested-Perm r,
    )
