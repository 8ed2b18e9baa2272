-- ===== src/ExpiringSet/Tests.antt =====
-- The set at concrete inputs.
use sprout_go.Base.{◌≡◌, refl, true, false, List, [], ◌∷◌, arith, All}
use sprout_go.ExpiringSet.{ExpiringSet, new_expiring_set, lookup, store, add, has}
use sprout_go.ExpiringSet.View.{is_alive, is_alive-add}
use sprout_go.ExpiringSet.History.{Call, adds, asks, replay, has-replay}
use sprout_go.ExpiringSet.Bounds.{NotPast, add-NotPast}

-- "a" is added at time 10 for 60 nanoseconds.
abbrev one : ExpiringSet
one = record { elements = (record { element = "a"; expiration = 70 }) ∷ [] }

add-one : add 9 10 "a" 60 new_expiring_set ≡ one
unfolding add store
add-one = refl

is_alive-add_example : is_alive 70 "a" (add 9 10 "a" 60 one) ≡ true
unfolding lookup
is_alive-add_example = is_alive-add 9 10 70 60 "a" "a" one (refl, tt) (omega arith)

abbrev history : List Call
history = asks 40 "b" ∷ adds 9 10 "a" 60 ∷ []

has-replay_example : (has 71 "a" (replay history)).0 ≡ false
has-replay_example = has-replay "a" 71 history (omega arith)

add-NotPast_example : All (NotPast 80) (add 80 81 "b" 1 one).elements
add-NotPast_example = add-NotPast 80 81 1 "b" one (omega arith)
