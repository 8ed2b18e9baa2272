-- ===== src/Watch.antt =====
-- watch/watch.go: the goroutine of Watch, over what it receives on its two channels, in the order in
-- which `select` takes it. What is logged is left out.
pub mod Handled
pub mod Tests
use sprout_go.Base.{Bool, true, false, List, [], ◌∷◌, if◌then◌else◌}
use sprout_go.Base.Exec.{Result, ok, Exec, pure, lift, ◌>>=◌, ◌>>◌}

-- An event of the package fsnotify: whether its Op has the bits Create and Write, and its Name.
pub record Event (N : Type 0) : Type 0 where
  pub creates : Bool
  pub writes : Bool
  pub name : N

-- What is received: an event, an error, or that one of the channels is closed.
pub data Received (N : Type 0) : Type 0 where
  event : Event N → Received N
  error : Received N
  events_closed errors_closed : Received N

module _ {N S : Type 0} (handler : N → S → S) where
  -- The inner switch.
  unfoldable pub on_event : Event N → S → S
  on_event e s = if e.creates then handler e.name s else if e.writes then handler e.name s else s

  -- The loop, and whether it has returned.
  unfoldable pub watch : List (Received N) → S → Bool × S
  watch [] s = (false, s)
  watch (event e ∷ later) s = watch later (on_event e s)
  watch (error ∷ later) s = watch later s
  watch (events_closed ∷ later) s = (true, s)
  watch (errors_closed ∷ later) s = (true, s)

-- Watch, of what fsnotify.NewWatcher and the method Add of the watcher answer. The state is whether
-- the goroutine was started.
abbrev pub start_goroutine : Exec Bool (Unit {0})
start_goroutine started = (ok tt, true)

unfoldable pub start_watch : {W : Type 0} → Result W → (W → Result (Unit {0})) → Exec Bool W
start_watch new_watcher add = do
  watcher ← lift new_watcher
  start_goroutine
  lift (add watcher)
  pure watcher
