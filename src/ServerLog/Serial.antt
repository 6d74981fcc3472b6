-- ===== src/ServerLog/Serial.antt =====
-- The output of the server's logger is that of calls one after the other.
use fastvid.Common.{
  ◌≡◌, refl, sym, ap, ap₂, ◌∙◌, false, List, [], ◌∷◌, ◌++◌, arith, append-nil, append_assoc,
}
use fastvid.Text.{Text}
use fastvid.Log.{LogLevel, System, LoggerState, Sink}
use fastvid.ServerLog.Functions.{initial_state, ensure_log_file_initialized, commit, set_verbose}
use fastvid.ServerLog.{
  Pending, Event, logged, verbose, path, Server, start_server, call_step, acquire_step, path_step,
  verbose_step, Step, call, acquire, put, release, set, look, Reach, here, next,
}

-- The static variables and the output of calls that run one after the other, each to its end.
unfoldable pub replay : List Event → LoggerState × List (Sink × Text)
replay [] = (initial_state, [])
replay (logged sys p ∷ events) =
    let (s, out) = replay events in
    let (s', writes) = commit p.prefix sys p.level p.message s in (s', out ++ writes)
replay (verbose b ∷ events) = let (s, out) = replay events in (set_verbose b s, out)
replay (path sys ∷ events) =
    let (s, out) = replay events in
    let (s', warnings) = ensure_log_file_initialized sys s in (s', out ++ warnings)

-- The calls that took the mutex so far, run one after the other, leave the static variables as they
-- are, and the output with what the holder has still to write.
pub record IsSerial (x : Server) : Type 0 where
  pub state : (replay x.history).0 ≡ x.state
  pub output : (replay x.history).1 ≡ x.output ++ x.left
  pub idle : x.held ≡ false → x.left ≡ []

call-IsSerial :
    (x : Server) (sys : System) (level : LogLevel) (message : Text)
    → IsSerial x
    → IsSerial (call_step sys level message x)
unfolding call_step
call-IsSerial x sys level message v = ground arith

-- Nothing is left to write while nobody holds the mutex.
output-idle : {x : Server} → IsSerial x → x.held ≡ false → (replay x.history).1 ≡ x.output
output-idle {x} v free = v.output ∙ rw (v.idle free) (append-nil x.output)

acquire-IsSerial :
    (x : Server) (sys : System) (p : Pending) (others : List Pending)
    → IsSerial x
    → x.held ≡ false
    → IsSerial (acquire_step sys p others x)
unfolding acquire_step replay
acquire-IsSerial x sys p others v free = record {
  state = ap (λ s. (commit p.prefix sys p.level p.message s).0) v.state;
  output =
      ap₂ (λ out s. out ++ (commit p.prefix sys p.level p.message s).1) (output-idle v free)
        v.state;
  idle = λ e. cc;
}

path-IsSerial :
    (x : Server) (sys : System) → IsSerial x → x.held ≡ false → IsSerial (path_step sys x)
unfolding path_step replay
path-IsSerial x sys v free = record {
  state = ap (λ s. (ensure_log_file_initialized sys s).0) v.state;
  output =
      ap₂ (λ out s. out ++ (ensure_log_file_initialized sys s).1) (output-idle v free) v.state
      ∙ rw (v.idle free) (sym (append-nil _));
  idle = v.idle;
}

Step-IsSerial : {x y : Server} → Step x y → IsSerial x → IsSerial y
unfolding verbose_step replay
Step-IsSerial {x} (call sys level message) v = call-IsSerial x sys level message v
Step-IsSerial {x} (acquire sys before after p e free) v =
    acquire-IsSerial x sys p (before ++ after) v free
Step-IsSerial {x} (put w ws e) v = record {
  state = v.state;
  output = v.output ∙ rw e (sym (append_assoc x.output (w ∷ []) ws));
  idle = λ free. cc (v.idle free, e);
}
Step-IsSerial {x} (release held done) v = record {
  state = v.state;
  output = v.output;
  idle = λ _. done;
}
Step-IsSerial {x} (set b) v = record {
  state = ap (set_verbose b) v.state;
  output = v.output;
  idle = v.idle;
}
Step-IsSerial {x} (look sys free) v = path-IsSerial x sys v free

start-IsSerial : IsSerial start_server
unfolding replay
start-IsSerial = record { state = refl; output = refl; idle = λ _. refl }

Reach-IsSerial : {x : Server} → Reach start_server x → IsSerial x
Reach-IsSerial here = start-IsSerial
Reach-IsSerial (next r st) = Step-IsSerial st (Reach-IsSerial r)

-- Whatever the threads do, whenever no call of `Log` holds the mutex, the static variables and the
-- output are those that the calls leave which took it, each run to its end before the next, in the
-- order in which they took it, with the uses of `SetVerbose` between them.
pub replay-history :
    {x : Server} → Reach start_server x → x.held ≡ false → replay x.history ≡ (x.state, x.output)
replay-history r free =
    let v = Reach-IsSerial r in ap₂ (λ s out. (s, out)) v.state (output-idle v free)
