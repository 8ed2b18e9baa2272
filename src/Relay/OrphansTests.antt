-- ===== src/Relay/OrphansTests.antt =====
-- A relay over the store of the example tree, which starts a worker and sees three files.
use sprout_go.Base.{ℕ, ◌+◌, ◌≡◌, refl, subst, sym, inl, some, List, [], ◌∷◌, All, codes}
use sprout_go.Base.Reach.{here, next}
use sprout_go.Example.{hash_eq}
use sprout_go.ExpiringSet.{has, lookup}
use sprout_go.Worker.Lineage.{IsLineage}
use sprout_go.Worker.Run.{new_worker}
use sprout_go.Worker.Gained.{Has}
use sprout_go.Worker.Closed.{IsClosed-add}
use sprout_go.Worker.ToyTree.{
  tree, strict, strict-StoreLaws, strict-StrictLaws, root-IsClosed, look, look-IsRooted,
  look-EndsAtRoots,
}
use sprout_go.Relay.{on_file, on_node, store_node}
use sprout_go.Relay.Tests.{add_to, id_string}
use sprout_go.Relay.System.{System, idle, launches, sees, purges, with_messages}
use sprout_go.Relay.Orphans.{Grows, no_orphans}
use sprout_go.Worker.Interleaved.{Interleaving, interleaved, after_others, Interferes}
use sprout_go.Base.Exec.{Result}

-- Other users add node 0, and one does so when the next node was validated.
abbrev AddsRoot : List ℕ → List ℕ → Type 0
AddsRoot s t = t ≡ 0 ∷ s

AddsRoot-Grows : (s t : List ℕ) → AddsRoot s t → Grows strict s t
AddsRoot-Grows s t i = subst (Grows strict s) (sym i) (
  (λ h has. strict-StoreLaws.keeps.loses_none 0 0 s h has),
  (λ c. IsClosed-add strict-StoreLaws.keeps strict-StrictLaws s 0 0 c (inl refl)),
)

abbrev add_later : ℕ → Interleaving strict → Result (Unit {0}) × Interleaving strict
add_later n = after_others strict (add_to n)

abbrev Relaying : Type 0
Relaying = System tree (interleaved strict) add_later id_string (Interferes strict AddsRoot)

abbrev at_first : Relaying
at_first =
    idle tree (interleaved strict) add_later id_string (Interferes strict AddsRoot) (0 ∷ [], [])

abbrev launched : Relaying
launched = record at_first {
  workers =
      new_worker tree (interleaved strict) (codes "version 1 0.0\n") [] (0 ∷ [], []) 0 0 [] ∷ [];
}

abbrev visited : Relaying
visited = record launched { relay = with_messages (0 ∷ [], (λ s. 0 ∷ s) ∷ []) launched.relay }

abbrev saw : ℕ → Relaying → Relaying
saw n r = record r {
  relay =
      (on_file tree (interleaved strict) add_later id_string 9 (some (tree.marshal_binary n))
        r.relay).1;
}

-- The parent of node 3 is node 2, and that of node 2 is node 1, a root.
no_orphans_example :
    let r = saw 3 (saw 2 (saw 1 visited)) in
    All (λ p. Has strict r.relay.messages.0 (p + 1)) (2 ∷ 1 ∷ [])
unfolding on_file on_node store_node has lookup IsLineage
no_orphans_example =
    no_orphans strict add_to id_string AddsRoot look (0 ∷ []) (saw 3 (saw 2 (saw 1 visited))) 3
      (2 ∷ 1 ∷ []) strict-StoreLaws.keeps strict-StrictLaws (λ m t. (0, refl)) AddsRoot-Grows
      look-IsRooted.ids look-EndsAtRoots root-IsClosed
      (next
        (next
          (next
            (next (next here (launches at_first (codes "version 1 0.0\n") [] 0 0 []))
              (purges launched (0 ∷ [], (λ s. 0 ∷ s) ∷ []) (inl refl, ((λ u. refl), tt))))
            (sees visited 9 (some (tree.marshal_binary 1))))
          (sees (saw 1 visited) 9 (some (tree.marshal_binary 2))))
        (sees (saw 2 (saw 1 visited)) 9 (some (tree.marshal_binary 3))))
      (refl, (refl, tt)) (3, refl)
