-- ===== src/ServerLog/Requested.antt =====
-- No call of the server's logger is lost or logged twice.
use fastvid.Common.{subst, Bool-cases, inl, inr, List, [], ◌∷◌, ◌++◌, if◌then◌else◌}
use mathlib.Core.List.{Perm, perm_middle}
use mathlib.Core.List.Perm
use fastvid.Text.{Text}
use fastvid.Log.{LogLevel, System}
use fastvid.ServerLog.Functions.{format_prefix, is_silent}
use fastvid.ServerLog.{
  Pending, Event, logged, verbose, path, Server, start_server, call_step, acquire_step, path_step,
  verbose_step, call, acquire, put, release, set, look, Reach, here, next,
}

-- What a call of `Log` asks for, at the state in which it tests the verbose flag.
unfoldable pub request : System → LogLevel → Text → Server → List Pending
request sys level message x =
    if is_silent level x.state
    then []
    else record { prefix = format_prefix sys level; level = level; message = message } ∷ []

-- All the calls of a run that are not silenced, the newest first.
unfoldable pub requested : {x : Server} → Reach start_server x → List Pending
requested here = []
requested (next {y} r (call sys level message)) = request sys level message y ++ requested r
requested (next r (acquire _ _ _ _ _ _)) = requested r
requested (next r (put _ _ _)) = requested r
requested (next r (release _ _)) = requested r
requested (next r (set _)) = requested r
requested (next r (look _ _)) = requested r

-- The calls that took the mutex.
unfoldable pub taken : List Event → List Pending
taken [] = []
taken (logged sys p ∷ events) = p ∷ taken events
taken (verbose b ∷ events) = taken events
taken (path sys ∷ events) = taken events

-- Taking the mutex moves a call from those that wait to those that have taken it.
taken-Perm :
    (before after taken_before : List Pending) (p : Pending)
    → Perm ((before ++ p ∷ after) ++ taken_before) ((before ++ after) ++ p ∷ taken_before)
taken-Perm before after taken_before p =
    Perm.trans (Perm.append_right taken_before (perm_middle before after))
      (Perm.symm (perm_middle (before ++ after) taken_before))

call-Perm :
    (sys : System) (level : LogLevel) (message : Text) (x : Server) (requests : List Pending)
    → Perm requests (x.waiting ++ taken x.history)
    → let y = call_step sys level message x in
      Perm (request sys level message x ++ requests) (y.waiting ++ taken y.history)
unfolding request call_step
call-Perm sys level message x requests same = elim (Bool-cases (is_silent level x.state)) [
  | inl silent ↦ rw silent same
  | inr loud ↦ rw loud (Perm.cons _ same)
]

-- Every call that is not silenced waits for the mutex or has taken it, and is there once.
pub requested-Perm :
    {x : Server} (r : Reach start_server x) → Perm (requested r) (x.waiting ++ taken x.history)
unfolding requested taken acquire_step path_step verbose_step
requested-Perm here = Perm.refl []
requested-Perm (next {y} r (call sys level message)) =
    call-Perm sys level message y (requested r) (requested-Perm r)
requested-Perm (next {y} r (acquire sys before after p e free)) =
    Perm.trans (subst (λ ps. Perm (requested r) (ps ++ taken y.history)) e (requested-Perm r))
      (taken-Perm before after (taken y.history) p)
requested-Perm (next r (put w ws e)) = requested-Perm r
requested-Perm (next r (release held done)) = requested-Perm r
requested-Perm (next r (set b)) = requested-Perm r
requested-Perm (next r (look sys free)) = requested-Perm r
