-- ===== src/Relay.antt =====
-- cmd/relay/main.go: the two callbacks of the relay. One remembers which nodes the relay itself has
-- stored, and the other stores the nodes of files that other processes have written. What is logged
-- is left out.
pub mod Listen
pub mod Start
pub mod Watched
pub mod History
pub mod System
pub mod Shared
pub mod SharedTests
pub mod Orphans
pub mod OrphansTests
pub mod Tests
use sprout_go.Base.{ℕ, ◌*◌, ◌^◌, String, Bool, true, false, Option, none, some, List, if◌then◌else◌}
use sprout_go.Base.Exec.{Result, ok, err, panics, Exec, pure, panic}
use sprout_go.Forest.{Forest}
use sprout_go.Worker.Store.{Archive}
use sprout_go.ExpiringSet.{ExpiringSet, add, has}

-- time.Minute, in nanoseconds
abbrev pub minute : ℕ
minute = 60 * 10 ^ 9

-- `add_to` is the method Add of the store, and `id_string` the method String of a hash.
module _ (F : Forest) (A : Archive F) (add_to : F.Node → A.Store → Result (Unit {0}) × A.Store)
    (id_string : F.Hash → String) where
  open F use {Hash, Node, id, unmarshal_binary_node}
  open A use {Store, validate_deep}

  -- The variables `messages` and `addedOurselves`.
  pub record Relay : Type 0 where
    pub messages : Store
    pub added_ourselves : ExpiringSet

  -- The callback for added messages. The clock is read when the set is purged, and once more.
  unfoldable pub on_new_message : (purged now : ℕ) → Node → Relay → Relay
  on_new_message purged now n r = record r {
    added_ourselves = add purged now (id_string (id n)) minute r.added_ourselves;
  }

  -- An error is only logged.
  abbrev pub no_error : Result (Unit {0}) → Result (Unit {0})
  no_error panics = panics
  no_error _ = ok tt

  -- messages.Add(node); its error is only logged. The callback that it makes is a step of its own.
  unfoldable pub store_node : Node → Exec Relay (Unit {0})
  store_node n r = let (res, s) = add_to n r.messages in (no_error res, record r { messages = s })

  abbrev pub add_if_valid : Result (Unit {0}) → Node → Exec Relay (Unit {0})
  add_if_valid (ok u) n = store_node n
  add_if_valid (err e) n = pure tt
  add_if_valid panics n = panic

  -- The node of a watched file.
  unfoldable pub on_node : ℕ → Node → Exec Relay (Unit {0})
  on_node now n r =
      let (ours, seen) = has now (id_string (id n)) r.added_ourselves in
      let r' = record r { added_ourselves = seen } in
      if ours then (ok tt, r') else add_if_valid (validate_deep r.messages n) n r'

  abbrev pub on_unmarshalled : ℕ → Option Node → Exec Relay (Unit {0})
  on_unmarshalled now none = pure tt
  on_unmarshalled now (some n) = on_node now n

  -- The callback for watched files, of what was read from the file; `none` is an error.
  unfoldable pub on_file : ℕ → Option (List ℕ) → Exec Relay (Unit {0})
  on_file now none = pure tt
  on_file now (some bytes) = on_unmarshalled now (unmarshal_binary_node bytes)
