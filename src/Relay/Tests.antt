-- ===== src/Relay/Tests.antt =====
-- The relay at concrete inputs, over the example forest and its store.
use sprout_go.Base.{ℕ, String, ◌≡◌, none, some, List, [], ◌∷◌, ◌==◌, arith, if◌then◌else◌}
use sprout_go.Base.Exec.{Result, ok}
use sprout_go.Example.{forest, forest_laws}
use sprout_go.Worker.Toy.{archive}
use sprout_go.Relay.{on_file}
use sprout_go.ExpiringSet.History.{not_yet, expires}
use sprout_go.Relay.History.{Event, stores, sees, after, calls_of, with_valid, on_file-after}

abbrev pub add_to : ℕ → List ℕ → Result (Unit {0}) × List ℕ
add_to n s = (ok tt, n ∷ s)

abbrev pub id_string : ℕ → String
id_string h = if h == 1 then "one" else "other"

-- Node 2 came into the store at the time 5, and a file that cannot be read was seen at the time 7.
abbrev events : List (Event ℕ)
events = sees 7 none ∷ stores 5 5 2 ∷ []

-- The file with node 3 is seen at the time 9.
on_file-after_example :
    (on_file forest archive add_to id_string 9
      (some (forest.marshal_binary 3))
      (after forest archive add_to id_string events (0 ∷ []))).1.messages
    ≡ (let stored = (after forest archive add_to id_string events (0 ∷ [])).messages in
        if not_yet 9 (expires (id_string 4) (calls_of forest archive add_to id_string events))
        then stored
        else with_valid forest archive add_to id_string (archive.validate_deep stored 3) 3 stored)
unfolding calls_of
on_file-after_example =
    on_file-after forest archive add_to id_string forest_laws events (0 ∷ []) 9 3 (omega arith, tt)
