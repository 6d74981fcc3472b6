-- ===== src/ServerLog/Finished.antt =====
-- Every call of the server's logger can be brought to its end.
use fastvid.Common.{
  subst, ◌≡◌, refl, sym, true, false, List, [], ◌∷◌, ◌++◌, append-nil, append_assoc, Bool-cases,
  inl, inr,
}
use mathlib.Core.List.{Perm, perm_middle}
use mathlib.Core.List.Perm
use fastvid.Log.{System, Sink}
use fastvid.Log.Output.{console_texts, file_texts}
use fastvid.Log.History.{on_console, in_file}
use fastvid.Text.{Text}
use fastvid.ServerLog.{
  Pending, Server, start_server, put, release, acquire, acquire_step, Reach, here, next,
}
use fastvid.ServerLog.Requested.{requested, taken, requested-Perm}
use fastvid.ServerLog.Written.{opener, committed, output-committed}

Reach-trans : {x y z : Server} → Reach x y → Reach y z → Reach x z
Reach-trans r here = r
Reach-trans r (next more st) = next (Reach-trans r more) st

-- The holder of the mutex writes what it has left, and gives the mutex back.
abbrev pub released : List (Sink × Text) → Server → Server
released ws x = record x { output = x.output ++ ws; left = []; held = false }

pub Reach-released :
    {start : Server} (ws : List (Sink × Text)) (x : Server)
    → Reach start x
    → x.held ≡ true
    → x.left ≡ ws
    → Reach start (released ws x)
Reach-released {start} [] x r held e =
    subst (Reach start)
      (λ i. record x { output = sym (append-nil x.output) i; left = e i; held = false })
      (next r (release held e))
Reach-released {start} (w ∷ ws) x r held e =
    subst (λ out. Reach start (record x { output = out; left = []; held = false }))
      (append_assoc x.output (w ∷ []) ws)
      (Reach-released ws (record x { output = x.output ++ w ∷ []; left = ws }) (next r (put w ws e))
        held refl)

-- Nobody holds the mutex or waits for it, and the calls that took it are those asked for.
record IsDrained (requests : List Pending) (y : Server) : Type 0 where
  held : y.held ≡ false
  waiting : y.waiting ≡ []
  same : Perm requests (taken y.history)

drain :
    {start : Server} (sys : System) (ps requests : List Pending) (x : Server)
    → Reach start x
    → x.held ≡ false
    → x.waiting ≡ ps
    → Perm requests (ps ++ taken x.history)
    → (y : Server) × Reach start y × IsDrained requests y
unfolding acquire_step taken
drain sys [] requests x r free e same = (x, r, record { held = free; waiting = e; same = same })
drain sys (p ∷ ps) requests x r free e same =
    let z = acquire_step sys p ps x in
    drain sys ps requests (released z.left z)
      (Reach-released z.left z (next r (acquire sys [] ps p e free)) refl refl) refl refl
      (Perm.trans same (Perm.symm (perm_middle ps (taken x.history))))

-- The holder, if there is one, first.
drain_all :
    (sys : System) (requests : List Pending) (x : Server)
    → Perm requests (x.waiting ++ taken x.history)
    → (y : Server) × Reach x y × IsDrained requests y
drain_all sys requests x same = elim (Bool-cases x.held) [
  | inl held ↦
      drain sys x.waiting requests (released x.left x) (Reach-released x.left x here held refl) refl
        refl same
  | inr free ↦ drain sys x.waiting requests x here free refl same
]

-- What is there when every call asked for is through: nobody holds the mutex or waits for it, each of
-- these calls took it once, and the output is what Written says.
pub record IsFinished (requests : List Pending) (y : Server) : Type 0 where
  pub held : y.held ≡ false
  pub waiting : y.waiting ≡ []
  pub logged : Perm requests (taken y.history)
  pub console : console_texts y.output ≡ on_console (opener y.history) (committed (taken y.history))
  pub into_file : file_texts y.output ≡ in_file (opener y.history) (committed (taken y.history))

-- No call of `Log` gets stuck: from whatever the threads have done, and with any one system for
-- the calls from then on, there are finitely many steps after which nobody holds the mutex or
-- waits for it; exactly the calls made so far that are not silenced have then taken it, each once,
-- and all their lines are on the console, call after call, and in the file if it is open, with the
-- one warning if it did not open.
pub Reach-IsFinished :
    {x : Server} (r : Reach start_server x) (sys : System)
    → (y : Server) × Reach x y × IsFinished (requested r) y
Reach-IsFinished {x} r sys =
    let (y, more, drained) = drain_all sys (requested r) x (requested-Perm r) in
    let (console, texts, _) = output-committed (Reach-trans r more) drained.held in
    (
      y,
      more,
      record {
        held = drained.held;
        waiting = drained.waiting;
        logged = drained.same;
        console = console;
        into_file = texts;
      },
    )
