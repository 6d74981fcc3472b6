-- ===== src/ServerLog.antt =====
-- sserver/src/common/log/Logger.cpp, used by several threads. Functions has what it runs; here a call of
-- `Log` is cut at the places where another thread may come in between: the test of the verbose flag
-- and the making of the prefix come before the mutex is taken, and under it the lines go out one
-- after the other.
pub mod Functions
pub mod Serial
mod Finished
mod Requested
mod Written
mod Tests
use fastvid.Common.{ℕ, ◌≡◌, Bool, true, false, List, [], ◌∷◌, ◌++◌, if◌then◌else◌}
use fastvid.Text.{Text}
use fastvid.Log.{LogLevel, LoggerState, System, Sink}
use fastvid.ServerLog.Functions.{
  initial_state, ensure_log_file_initialized, format_prefix, commit, is_silent, set_verbose,
}

-- A call of `Log` that is past the test and has its prefix, and waits for the mutex.
pub record Pending : Type 0 where
  pub prefix : Text
  pub level : LogLevel
  pub message : Text

-- What has been done to the static variables: a call that took the mutex, a use of `SetVerbose`, or
-- one of `CurrentLogFilePath`.
pub data Event : Type 0 where
  logged : System → Pending → Event
  verbose : Bool → Event
  path : System → Event

-- The server's logger: the static variables; the output so far; the calls that wait for the mutex;
-- whether a call of `Log` holds it, and what this call has still to write. `history` is no part of
-- the program: the events so far, the newest first.
pub record Server : Type 0 where
  pub state : LoggerState
  pub output : List (Sink × Text)
  pub waiting : List Pending
  pub held : Bool
  pub left : List (Sink × Text)
  pub history : List Event

abbrev pub start_server : Server
start_server = record {
  state = initial_state;
  output = [];
  waiting = [];
  held = false;
  left = [];
  history = [];
}

-- `Log` up to the mutex.
unfoldable pub call_step : System → LogLevel → Text → Server → Server
call_step sys level message x = if is_silent level x.state then x else record x {
  waiting =
      (record { prefix = format_prefix sys level; level = level; message = message }) ∷ x.waiting;
}

-- `Log` takes the mutex, opens the file if it is the first, and has its lines to write.
unfoldable pub acquire_step : System → Pending → List Pending → Server → Server
acquire_step sys p others x =
    let (s, writes) = commit p.prefix sys p.level p.message x.state in
    record x {
      state = s;
      waiting = others;
      held = true;
      left = writes;
      history = logged sys p ∷ x.history;
    }

-- `CurrentLogFilePath`, all of it under the mutex.
unfoldable pub path_step : System → Server → Server
path_step sys x =
    let (s, warnings) = ensure_log_file_initialized sys x.state in
    record x { state = s; output = x.output ++ warnings; history = path sys ∷ x.history }

-- `SetVerbose`, without the mutex.
unfoldable pub verbose_step : Bool → Server → Server
verbose_step b x = record x { state = set_verbose b x.state; history = verbose b ∷ x.history }

pub data Step (x : Server) : Server → Type 0 where
  call : (sys : System) (level : LogLevel) (message : Text) → Step x (call_step sys level message x)
  acquire :
      (sys : System) (before after : List Pending) (p : Pending)
      → x.waiting ≡ before ++ p ∷ after
      → x.held ≡ false
      → Step x (acquire_step sys p (before ++ after) x)
  put :
      (w : Sink × Text) (ws : List (Sink × Text))
      → x.left ≡ w ∷ ws
      → Step x (record x { output = x.output ++ w ∷ []; left = ws })
  release : x.held ≡ true → x.left ≡ [] → Step x (record x { held = false })
  set : (b : Bool) → Step x (verbose_step b x)
  look : (sys : System) → x.held ≡ false → Step x (path_step sys x)

pub data Reach (x : Server) : Server → Type 0 where
  here : Reach x x
  next : {y z : Server} → Reach x y → Step y z → Reach x z
