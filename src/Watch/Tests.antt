-- ===== src/Watch/Tests.antt =====
-- The watcher at concrete inputs: the handler keeps the names, the latest first.
use sprout_go.Base.{ℕ, ◌≡◌, true, false, List, [], ◌∷◌}
use sprout_go.Watch.{Event, event, error, events_closed, watch}
use sprout_go.Watch.Handled.{watch-closes}

abbrev written : ℕ → Event ℕ
written n = record { creates = false; writes = true; name = n }

abbrev removed : ℕ → Event ℕ
removed n = record { creates = false; writes = false; name = n }

abbrev keep : ℕ → List ℕ → List ℕ
keep n ns = n ∷ ns

watch-closes_example :
    watch keep
      (event (written 1)
        ∷ error
        ∷ event (removed 2)
        ∷ event (written 3)
        ∷ events_closed
        ∷ event (written 4)
        ∷ [])
      []
    ≡ (true, 3 ∷ 1 ∷ [])
watch-closes_example =
    watch-closes keep (event (written 1) ∷ error ∷ event (removed 2) ∷ event (written 3) ∷ [])
      (event (written 4) ∷ []) events_closed [] (tt, (tt, (tt, (tt, tt)))) tt
