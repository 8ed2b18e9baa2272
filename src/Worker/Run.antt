-- ===== src/Worker/Run.antt =====
-- NewWorker and Run: messages are read and answered until the connection fails or is done.
use sprout_go.Base.{ℕ, zero, suc, Bool, true, false, Option, none, some, List, [], Eq, Text}
use sprout_go.Base.Int.{ℤ}
use sprout_go.Base.Exec.{Result, ok, err, panics}
use sprout_go.Base.Errors.{Error, wrapped, unsolicited}
use sprout_go.Forest.{Forest}
use sprout_go.Session.{new_session}
use sprout_go.Conn.State.{new_conn}
use sprout_go.Conn.Send.{Wakeup}
use sprout_go.Conn.Dispatch.{Handlers, read_message}
use sprout_go.Worker.Store.{Archive}
use sprout_go.Worker.State.{Worker, host}
use sprout_go.Worker.Handlers.{
  on_version, on_list, on_query, on_ancestry, on_leaves_of, on_subscribe, on_unsubscribe,
}
use sprout_go.Worker.Announce.{on_announce}

-- errors.As for an UnsolicitedMessageError.
abbrev pub as_unsolicited : Error → Option ℤ
as_unsolicited (unsolicited id) = some id
as_unsolicited (wrapped format e) = as_unsolicited e
as_unsolicited _ = none

-- How Run ends: the connection fails, the channel Done is closed, or a run-time panic goes through.
pub data Ending : Type 0 where
  failed : Error → Ending
  done : Ending
  panicked : Ending

module _ (F : Forest) (A : Archive F) ⦃e : Eq F.Hash⦄ where
  open F use {Hash, Node}

  -- The handlers that NewWorker sets.
  abbrev pub handlers : Handlers Hash Node (Worker F A)
  handlers = record {
    on_version = some (on_version F A);
    on_list = some (on_list F A);
    on_query = some (on_query F A);
    on_ancestry = some (on_ancestry F A);
    on_leaves_of = some (on_leaves_of F A);
    on_subscribe = some (on_subscribe F A);
    on_unsubscribe = some (on_unsubscribe F A);
    on_announce = some (on_announce F A);
  }

  -- NewWorker, on a connection with some input and some faults.
  abbrev pub new_worker :
      Text → List (Option ℕ) → A.Store → (now subscription_id : ℕ) → List (Wakeup Node) → Worker F A
  new_worker input faults s now subscription_id wakeups = record {
    conn = new_conn input faults;
    session = new_session;
    store = s;
    subscription_id = subscription_id;
    addresses = 0;
    now = now;
    wakeups = wakeups;
    ingesting = [];
  }

  -- The body of the loop of Run up to its `select`: go on, or return with an error.
  abbrev pub after_read : Result (Unit {0}) → Option Ending
  after_read (ok u) = none
  after_read (err x) = elim (as_unsolicited x) [ some id ↦ none | none ↦ some (failed x) ]
  after_read panics = some panicked

  -- The loop of Run, for a number of rounds; `none` is that they were not enough. `closed` says for
  -- each round whether Done is closed when the round looks.
  unfoldable pub run : ℕ → (ℕ → Bool) → Worker F A → Option Ending × Worker F A
  run zero closed w = (none, w)
  run (suc rounds) closed w =
      let (r, w') = read_message F (host F A) handlers w in
      let rest = run rounds closed w' in
      elim (after_read r) [
        | some ending ↦ (some ending, w')
        | none ↦ elim (closed rounds) [ true ↦ (some done, w') | false ↦ rest ]
      ]
