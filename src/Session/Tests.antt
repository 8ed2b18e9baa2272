-- ===== src/Session/Tests.antt =====
-- Sessions at concrete inputs.
use sprout_go.Base.{ℕ, ◌≡◌, false, List, [], ◌∷◌, ◌==◌, Eq, ==_iff}
use sprout_go.Session.{Entry, Session, has_key, new_session, subscribe, is_subscribed, unsubscribe}
use mathlib.Core.List.{Perm}
use sprout_go.Session.Bag.{bag, bag-unsubscribe}

instance abbrev nat_eq : Eq ℕ
nat_eq = record { beq = ◌==◌; beq_iff = ==_iff }

-- Subscribed twice to community 7, through two messages.
abbrev twice : Session ℕ
twice = subscribe 2 7 (subscribe 1 7 new_session)

abbrev one_each : List (Entry ℕ)
one_each = (record { address = 1; community = 7 }) ∷ (record { address = 2; community = 8 }) ∷ []

abbrev one_each_swapped : List (Entry ℕ)
one_each_swapped =
    (record { address = 2; community = 8 }) ∷ (record { address = 1; community = 7 }) ∷ []

-- The two orders of a map with the communities 7 and 8.
bag-unsubscribe_example :
    (bag {H = ℕ} (record { communities = one_each })
        ≡ bag (record { communities = one_each_swapped })
      → is_subscribed 8 (record { communities = one_each })
        ≡ is_subscribed 8 (record { communities = one_each_swapped }))
    × (Perm one_each one_each_swapped
        → bag (unsubscribe 7 (record { communities = one_each }))
          ≡ bag (unsubscribe 7 (record { communities = one_each_swapped })))
    × (has_key 3 one_each ≡ false
        → bag (unsubscribe 7 (subscribe 3 7 (record { communities = one_each })))
          ≡ bag (record { communities = one_each }))
bag-unsubscribe_example =
    bag-unsubscribe 7 8 (record { communities = one_each })
      (record { communities = one_each_swapped }) 3
