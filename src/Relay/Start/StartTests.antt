-- ===== src/Relay/Start/StartTests.antt =====
-- The start of a relay that dials one address, on a machine that has no watchers.
use sprout_go.Base.{ℕ, true, [], ◌∷◌, Text, codes}
use sprout_go.Base.Exec.{ok, err}
use sprout_go.Base.Errors.{message}
use sprout_go.Relay.Start.{Flags, default_flags, Platform, new_process, main}
use sprout_go.Relay.Start.Outcome.{IsSetUp, AllOrNothing}
use sprout_go.Relay.Start.AllOrNothing.{main-all_or_nothing}

abbrev platform : Platform
platform = record {
  Cert = Text;
  Listener = Text;
  Grove = Text;
  Watcher = ℕ;
  load_key_pair = λ cert key. ok (codes "certificate");
  listen = λ address config. ok address;
  new_grove = λ path. ok path;
  new_watcher = err (message "too many open files");
  add_watch = λ path watcher. ok tt;
}

abbrev flags : Flags
flags = record (default_flags (codes "/grove")) { addresses = codes "peer:7777" ∷ [] }

main-all_or_nothing_example :
    AllOrNothing platform flags true
      (IsSetUp platform flags)
      (main platform flags true (new_process platform))
main-all_or_nothing_example = main-all_or_nothing platform flags true
