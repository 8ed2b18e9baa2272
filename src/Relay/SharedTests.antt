-- ===== src/Relay/SharedTests.antt =====
-- A relay with one worker, which bootstraps its store; then a watched file comes, and a purge.
use sprout_go.Base.{ℕ, ◌≡◌, refl, subst, sym, inl, some, List, [], ◌∷◌, All, arith, codes}
use sprout_go.Base.Int.{pos}
use sprout_go.Base.Reach.{here, next}
use sprout_go.Example.{forest, hash_eq}
use sprout_go.Conn.State.{is_response}
use sprout_go.Conn.Send.{replied}
use sprout_go.Worker.State.{Worker}
use sprout_go.Worker.Run.{new_worker}
use sprout_go.Worker.Bootstrap.{bootstrap_local_store}
use sprout_go.Worker.System.{bootstraps}
use sprout_go.Worker.Woken.{with_store}
use sprout_go.Worker.Toy.{archive, AreValid}
use sprout_go.Relay.{on_new_message, on_file}
use sprout_go.Relay.Tests.{add_to, id_string}
use sprout_go.Relay.System.{System, idle, with_messages, launches, works, remembers, sees, purges}
use sprout_go.Relay.Shared.{HasSoundConn, shared-kept}
use sprout_go.Worker.Interleaved.{Interleaving, interleaved, after_others, Interferes}
use sprout_go.Base.Exec.{Result}

-- A purger that removes the node that came last.
abbrev purge : List ℕ → List ℕ
purge [] = []
purge (n ∷ ns) = ns

abbrev Purges : List ℕ → List ℕ → Type 0
Purges s t = t ≡ purge s

purge-AreValid : (s : List ℕ) → AreValid s → AreValid (purge s)
purge-AreValid [] h = h
purge-AreValid (n ∷ ns) h = h.1

abbrev add_later : ℕ → Interleaving archive → Result (Unit {0}) × Interleaving archive
add_later n = after_others archive (add_to n)

abbrev Relaying : Type 0
Relaying = System forest (interleaved archive) add_later id_string (Interferes archive Purges)

abbrev at_first : Relaying
at_first =
    idle forest (interleaved archive) add_later id_string (Interferes archive Purges) (0 ∷ [], [])

abbrev new : Worker forest (interleaved archive)
new =
    new_worker forest (interleaved archive) (codes "status 5 0\n") [] (0 ∷ [], []) 0 0
      (replied (is_response (1 ∷ [])) ∷ [])

abbrev has_bootstrapped : Worker forest (interleaved archive)
has_bootstrapped =
    (bootstrap_local_store forest (interleaved archive) (pos 10) (with_store (0 ∷ [], []) new)).1

abbrev launched : Relaying
launched = record at_first { workers = new ∷ [] }

abbrev filled : Relaying
filled = record launched {
  relay = with_messages has_bootstrapped.store launched.relay;
  workers = has_bootstrapped ∷ [];
}

abbrev remembering : Relaying
remembering = record filled {
  relay = on_new_message forest (interleaved archive) add_later id_string 5 5 1 filled.relay;
}

-- The purger comes when the next node was validated.
abbrev purging : Relaying
purging = record remembering {
  relay = with_messages (remembering.relay.messages.0, purge ∷ []) remembering.relay;
}

abbrev has_seen : Relaying
has_seen = record purging {
  relay =
      (on_file forest (interleaved archive) add_later id_string 9 (some (forest.marshal_binary 3))
        purging.relay).1;
}

shared-kept_example :
    AreValid has_seen.relay.messages.0
    × All (HasSoundConn {A = interleaved archive}) has_seen.workers
shared-kept_example =
    shared-kept archive add_to id_string Purges AreValid (0 ∷ []) has_seen
      (λ s t n k p q e. (ground (arith, e), p)) (λ s n author k p e. (ground (arith, e), p))
      (λ s t n p q e. (ground (arith, e), p))
      (λ s t i h. subst AreValid (sym i) (purge-AreValid s h)) (omega arith, tt)
      (next
        (next
          (next
            (next
              (next here (
                launches at_first (codes "status 5 0\n") [] 0 0
                  (replied (is_response (1 ∷ [])) ∷ [])))
              (works launched [] [] new has_bootstrapped refl
                (bootstraps (with_store (0 ∷ [], []) new) (pos 10))))
            (remembers filled 5 5 1))
          (purges remembering (remembering.relay.messages.0, purge ∷ [])
            (inl refl, ((λ u. refl), tt))))
        (sees purging 9 (some (forest.marshal_binary 3))))
