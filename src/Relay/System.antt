-- ===== src/Relay/System.antt =====
-- cmd/relay/main.go: the relay while it runs. Its workers, those of accepted connections and those
-- that are supervised, its callbacks and its purger take turns on the one store that they share. A
-- worker whose Run has ended stays, since the goroutines that it has started may still run.
use sprout_go.Base.{String, ℕ, ◌≡◌, Option, List, [], ◌∷◌, ◌++◌, Text, Eq}
use sprout_go.Base.Exec.{Result}
use sprout_go.Forest.{Forest}
use sprout_go.ExpiringSet.{new_expiring_set}
use sprout_go.Conn.Send.{Wakeup}
use sprout_go.Worker.Store.{Archive}
use sprout_go.Worker.State.{Worker}
use sprout_go.Worker.Run.{new_worker}
use sprout_go.Worker.System.{Step}
use sprout_go.Worker.Woken.{with_store}
use sprout_go.Relay.{Relay, on_new_message, on_file}

-- The relay with this in its store.
abbrev pub with_messages :
    {F : Forest} {A : Archive F} {add_to : F.Node → A.Store → Result (Unit {0}) × A.Store}
    {id_string : F.Hash → String}
    → A.Store
    → Relay F A add_to id_string
    → Relay F A add_to id_string
with_messages s r = record r { messages = s }

-- `Changes` says what ExpiredPurger and other users make of a store.
module _ (F : Forest) (A : Archive F) (add_to : F.Node → A.Store → Result (Unit {0}) × A.Store)
    (id_string : F.Hash → String) (Changes : A.Store → A.Store → Type 0) where
  pub record System : Type 0 where
    pub relay : Relay F A add_to id_string
    pub workers : List (Worker F A)

  -- main, when it has opened the store and starts nothing yet.
  abbrev pub idle : A.Store → System
  idle s = record {
    relay = record { messages = s; added_ourselves = new_expiring_set };
    workers = [];
  }

  module _ ⦃e : Eq F.Hash⦄ where
    pub data Turn : System → System → Type 0 where
      -- a connection is accepted, or a supervisor has dialled
      launches :
          (r : System) (input : Text) (faults : List (Option ℕ)) (now subscription_id : ℕ)
          (wakeups : List (Wakeup F.Node))
          → Turn r (record r {
            workers =
                new_worker F A input faults r.relay.messages now subscription_id wakeups
                ∷ r.workers;
          })
      -- a worker takes a step
      works :
          (r : System) (before after : List (Worker F A)) (w v : Worker F A)
          → r.workers ≡ before ++ w ∷ after
          → Step F A Changes (with_store r.relay.messages w) v
          → Turn r
              (record r { relay = with_messages v.store r.relay; workers = before ++ v ∷ after })
      -- the callback for a node that came into the store
      remembers :
          (r : System) (purged now : ℕ) (n : F.Node)
          → Turn r (record r { relay = on_new_message F A add_to id_string purged now n r.relay })
      -- the callback for a watched file
      sees :
          (r : System) (now : ℕ) (file : Option (List ℕ))
          → Turn r (record r { relay = (on_file F A add_to id_string now file r.relay).1 })
      purges :
          (r : System) (s : A.Store)
          → Changes r.relay.messages s
          → Turn r (record r { relay = with_messages s r.relay })
