-- ===== src/Worker/RootFirst.antt =====
-- OnAncestry: the order in which the peer gets the ancestors of a node.
use sprout_go.Base.{ℕ, ◌<◌, ◌≤◌, ◌≡◌, ◌∙◌, ap, Option, none, some, List, [], ◌∷◌, All, arith}
use sprout_go.Base.Int.{ℤ, pos_part}
use sprout_go.Base.Exec.{ok, err}
use sprout_go.Base.Errors.{message}
use sprout_go.Base.Sorted.{Shuffles, IsSorted, IsFalling, turned_round, Shuffles-turned_round}
use sprout_go.Forest.{Forest}
use sprout_go.Worker.Store.{Archive}
use sprout_go.Worker.State.{Worker}
use sprout_go.Worker.Handlers.{on_ancestry}
use sprout_go.Worker.Answers.{responded}
use sprout_go.Worker.Lineage.{IsLineage, AreAncestors, on_ancestry-answers}

-- sort.Slice sorts, and keeps the elements.
pub record SortLaws {F : Forest} (A : Archive F) : Type 0 where
  pub sort-IsSorted : (key : F.Node → ℕ) (ns : List F.Node) → IsSorted key (A.sort_by key ns)
  pub sort-Shuffles : (key : F.Node → ℕ) (ns : List F.Node) → Shuffles ns (A.sort_by key ns)

module _ (F : Forest) (A : Archive F) where
  open F use {Hash, Node, parent_id, tree_depth}

  -- A node stands deeper in its tree than its parent.
  abbrev pub AreDeeper : (Hash → Option Node) → Type 0
  AreDeeper look = (n p : Node) → look (parent_id n) ≡ some p → tree_depth p < tree_depth n

  above-lineage :
      (look : Hash → Option Node) (depth : ℕ) (n : Node) (ps : List Node)
      → AreDeeper look
      → tree_depth n ≤ depth
      → IsLineage F A look n ps
      → All (λ p. tree_depth p < depth) ps
  unfolding IsLineage
  above-lineage look depth n [] d h l = tt
  above-lineage look depth n (p ∷ ps) d h (k, l) =
      (omega (arith, h, d n p k), above-lineage look depth p ps d (omega (arith, h, d n p k)) l)

  pub lineage-IsFalling :
      (look : Hash → Option Node) (n : Node) (ps : List Node)
      → AreDeeper look
      → IsLineage F A look n ps
      → IsFalling tree_depth ps
  unfolding IsLineage
  lineage-IsFalling look n [] d l = tt
  lineage-IsFalling look n (p ∷ ps) d (k, l) =
      (above-lineage look (tree_depth p) p ps d (omega arith) l, lineage-IsFalling look p ps d l)

  -- On a working transport and with a store that answers each look-up, OnAncestry responds for a
  -- node that the store has with its ancestors, from the one that is nearest to the root down to its
  -- parent: each is the parent of the next, as many as were asked for, or from a node with no parent
  -- or with an unknown one. For a node that the store does not have it returns an error and writes
  -- nothing. Nodes stand deeper than their parents, and sort.Slice sorts.
  pub on_ancestry-root_first :
      (id : ℤ) (h : Hash) (levels : ℤ) (look : Hash → Option Node) (w : Worker F A)
      → SortLaws A
      → AreDeeper look
      → ((k : Hash) → A.get w.store k ≡ ok (look k))
      → w.conn.faults ≡ []
      → ((n : Node)
          → look h ≡ some n
          → (ps : List Node) × (on_ancestry F A id h levels w
              ≡ (ok tt, responded F A id (turned_round ps) w))
            × AreAncestors F A look (pos_part levels) n ps)
        × (look h ≡ none
            → on_ancestry F A id h levels w
              ≡ (err (message "asked for ancestry of unknown node %v"), w))
  on_ancestry-root_first id h levels look w sorts d a f =
      let (known, unknown) = on_ancestry-answers F A id h levels look w a f in
      (
        λ n l.
            let (ps, e, p) = known n l in
            let order : A.sort_by tree_depth ps ≡ turned_round ps =
              Shuffles-turned_round tree_depth (sorts.sort-Shuffles tree_depth ps)
                (sorts.sort-IsSorted tree_depth ps) (lineage-IsFalling look n ps d p.lineage) in
            (ps, e ∙ ap (λ ns. (ok tt, responded F A id ns w)) order, p),
        unknown,
      )
