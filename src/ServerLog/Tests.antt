-- ===== src/ServerLog/Tests.antt =====
-- The server's logger at a concrete run: one thread logs a line, another logs two.
use fastvid.Common.{◌≡◌, refl, [], ◌∷◌, ◌++◌, some, true}
use fastvid.Common.Int.{pos}
use fastvid.Text.{codes}
use fastvid.Log.{info, error, System}
use fastvid.Log
use fastvid.ServerLog.Functions.{format_prefix, log, current_log_file_path, initial_state}
use fastvid.ServerLog.Functions.Same.{log-eq}
use fastvid.ServerLog.{
  Pending, Server, start_server, call_step, acquire_step, call, acquire, Reach, here, next,
}
use fastvid.ServerLog.Serial.{replay, replay-history}
use fastvid.Log.Output.{console_texts, file_texts}
use fastvid.ServerLog.Written.{texts_of, opener, committed, output-committed}
use mathlib.Core.List.{Perm}
use fastvid.ServerLog.Requested.{requested, taken}
use fastvid.ServerLog.Finished.{released, Reach-released, IsFinished, Reach-IsFinished}

abbrev system : System
system = record {
  executable = some (codes "/srv/build/server");
  has_directory = λ t. true;
  can_open = λ t. true;
  clock_compact = codes "20260101_000000";
  clock_text = codes "2026-01-01 00:00:00";
  pid = pos 9;
}

abbrev first : Pending
first = record { prefix = format_prefix system info; level = info; message = codes "up" }

abbrev second : Pending
second = record {
  prefix = format_prefix system error;
  level = error;
  message = codes "lost\nframe";
}

abbrev called : Server
called = call_step system error second.message (call_step system info first.message start_server)

-- The first call, though made first, takes the mutex last.
abbrev holding_second : Server
holding_second = acquire_step system second (first ∷ []) called

holding_second-Reach : Reach start_server holding_second
unfolding call_step
holding_second-Reach =
    next (next (next here (call system info first.message)) (call system error second.message))
      (acquire system [] (first ∷ []) second refl refl)

holds : holding_second.held ≡ true
unfolding acquire_step
holds = refl

abbrev through_second : Server
through_second = released holding_second.left holding_second

through : Reach start_server through_second
through = Reach-released holding_second.left holding_second holding_second-Reach holds refl

Reach-IsFinished_example :
    (y : Server) × Reach holding_second y × IsFinished (requested holding_second-Reach) y
Reach-IsFinished_example = Reach-IsFinished holding_second-Reach system

replay-history_example : let x = through_second in replay x.history ≡ (x.state, x.output)
replay-history_example = replay-history through refl

output-committed_example :
    let x = through_second in
    (console_texts x.output ≡ texts_of second)
    × (file_texts x.output ≡ texts_of second)
    × Perm (requested through) (x.waiting ++ taken x.history)
unfolding opener committed taken acquire_step call_step Log.lines_of
    fastvid.Log.Paths.resolve_log_directory Log.lines_from fastvid.Log.Paths.parent_directory
    Log.find fastvid.Log.Paths.find_last_of Log.find_first fastvid.Log.Paths.base_name
output-committed_example = output-committed through refl

log-eq_example :
    (log system error (codes "lost\nframe") initial_state
      ≡ Log.log system error (codes "lost\nframe") initial_state)
    × (current_log_file_path system initial_state ≡ Log.current_log_file_path system initial_state)
log-eq_example = log-eq system error (codes "lost\nframe") initial_state
