-- ===== src/Supervisor.antt =====
-- supervisor.go: the loop of LaunchSupervisedWorker, which dials, runs a worker until it ends, and
-- starts again. What is logged is left out, and so is what the worker does, which is its own part.
pub mod Stops
pub mod Tests
use sprout_go.Base.{ℕ, suc, Bool, true, false, List, [], ◌∷◌, if◌then◌else◌}

-- How a round of the loop goes: tls.Dial fails, NewWorker fails, or the worker runs until it ends;
-- then `closed` says whether the channel `done` is closed.
pub data Attempt : Type 0 where
  dial_fails worker_fails : Attempt
  runs : (closed : Bool) → Attempt

pub record Supervisor : Type 0 where
  pub first_attempt : Bool
  -- the calls of time.Sleep, of a second each
  pub sleeps : ℕ
  pub dials : ℕ
  -- the workers that were started, each with a goroutine that bootstraps its store
  pub workers : ℕ

abbrev pub new_supervisor : Supervisor
new_supervisor = record { first_attempt = true; sleeps = 0; dials = 0; workers = 0 }

-- The round up to the dial.
unfoldable pub before_dial : Supervisor → Supervisor
before_dial s = record s {
  first_attempt = false;
  sleeps = if s.first_attempt then s.sleeps else suc s.sleeps;
  dials = suc s.dials;
}

abbrev pub launch : Supervisor → Supervisor
launch s = record s { workers = suc s.workers }

-- The loop, over the attempts that it makes, and whether it has returned.
unfoldable pub supervise : List Attempt → Supervisor → Bool × Supervisor
supervise [] s = (false, s)
supervise (dial_fails ∷ later) s = supervise later (before_dial s)
supervise (worker_fails ∷ later) s = supervise later (before_dial s)
supervise (runs true ∷ later) s = (true, launch (before_dial s))
supervise (runs false ∷ later) s = supervise later (launch (before_dial s))
