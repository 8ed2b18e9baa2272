-- ===== src/Supervisor/Tests.antt =====
-- The supervisor at concrete inputs.
use sprout_go.Base.{◌≡◌, refl, true, false, [], ◌∷◌}
use sprout_go.Supervisor.{dial_fails, runs, new_supervisor, supervise}
use sprout_go.Supervisor.Stops.{restarting, supervise-stops}

-- A dial fails, a worker runs and ends, and the next one ends when `done` is closed.
supervise-stops_example :
    supervise (dial_fails ∷ runs false ∷ runs true ∷ []) new_supervisor ≡ (true, restarting 2 3 2)
supervise-stops_example = (supervise-stops (dial_fails ∷ runs false ∷ []) [] (tt, (refl, tt))).0
