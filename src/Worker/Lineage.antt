-- ===== src/Worker/Lineage.antt =====
-- OnAncestry: which ancestors the peer is answered with.
use sprout_go.Base.{
  ℕ, zero, suc, ◌≤◌, ◌≡◌, ◌⊎◌, inl, inr, refl, ap, ◌∙◌, true, false, Bool-cases, Option,
  Option-cases, none, some, List, [], ◌∷◌, length, arith,
}
use sprout_go.Base.Int.{ℤ, pos_part}
use sprout_go.Base.Exec.{ok, err}
use sprout_go.Base.Errors.{message}
use sprout_go.Forest.{Forest}
use sprout_go.Worker.Store.{Archive}
use sprout_go.Worker.State.{Worker}
use sprout_go.Worker.Handlers.{climb, on_ancestry}
use sprout_go.Worker.Answers.{responded, on_wire-send_response}

module _ (F : Forest) (A : Archive F) where
  open F use {Hash, Node, equals, parent_id, null_hash, tree_depth}

  -- Each node is what the look-up finds for the parent ID of the one before it.
  unfoldable pub IsLineage : (Hash → Option Node) → Node → List Node → Type 0
  IsLineage look n [] = Unit
  IsLineage look n (p ∷ ps) = (look (parent_id n) ≡ some p) × IsLineage look p ps

  -- A node with no parent, or with a parent that the look-up does not find.
  abbrev pub IsTop : (Hash → Option Node) → Node → Type 0
  IsTop look n = (equals (parent_id n) null_hash ≡ true) ⊎ (look (parent_id n) ≡ none)

  -- The last node of a lineage.
  abbrev pub top : Node → List Node → Node
  top n [] = n
  top n (p ∷ ps) = top p ps

  -- The ancestors of a node, up to a number or to the top.
  pub record AreAncestors (look : Hash → Option Node) (rounds : ℕ) (n : Node) (ps : List Node)
      : Type 0 where
    pub lineage : IsLineage look n ps
    pub bounded : length ps ≤ rounds
    pub complete : (length ps ≡ rounds) ⊎ IsTop look (top n ps)

  unfoldable pub Climbs : (Hash → Option Node) → ℕ → Node → Worker F A → Type 0
  Climbs look rounds n w =
      (ps : List Node) × (climb F A rounds n w ≡ (ok ps, w)) × AreAncestors look rounds n ps

  climb-stop :
      (look : Hash → Option Node) (rounds : ℕ) (n : Node) (w : Worker F A)
      → climb F A (suc rounds) n w ≡ (ok [], w)
      → IsTop look n
      → Climbs look (suc rounds) n w
  unfolding Climbs IsLineage
  climb-stop look rounds n w e t =
      ([], e, record { lineage = tt; bounded = omega arith; complete = inr t })

  climb-step :
      (look : Hash → Option Node) (rounds : ℕ) (n p : Node) (w : Worker F A)
      → equals (parent_id n) null_hash ≡ false
      → A.get w.store (parent_id n) ≡ ok (some p)
      → look (parent_id n) ≡ some p
      → Climbs look rounds p w
      → Climbs look (suc rounds) n w
  unfolding Climbs IsLineage climb
  climb-step look rounds n p w r g l (ps, e, a) = (
    p ∷ ps,
    rw (r, g, e),
    record {
      lineage = (l, a.lineage);
      bounded = omega (arith, a.bounded);
      complete = elim a.complete [ inl c ↦ inl (ap suc c) | inr t ↦ inr t ];
    },
  )

  pub climb-Climbs :
      (look : Hash → Option Node) (rounds : ℕ) (n : Node) (w : Worker F A)
      → ((h : Hash) → A.get w.store h ≡ ok (look h))
      → Climbs look rounds n w
  unfolding Climbs IsLineage climb
  climb-Climbs look zero n w a =
      ([], refl, record { lineage = tt; bounded = omega arith; complete = inl refl })
  climb-Climbs look (suc rounds) n w a = elim (Bool-cases (equals (parent_id n) null_hash)) [
    | inl r ↦ climb-stop look rounds n w (rw r) (inl r)
    | inr r ↦ elim (Option-cases (look (parent_id n))) [
      | inl l ↦ climb-stop look rounds n w (rw (r, a (parent_id n), l)) (inr l)
      | inr (p, l) ↦
          climb-step look rounds n p w r (a (parent_id n) ∙ ap ok l) l
            (climb-Climbs look rounds p w a)
    ]
  ]

  -- If the store answers each look-up, OnAncestry responds on a working transport with the sorted
  -- ancestors of a node that it has: parent after parent, as many as were asked for, or up to a node
  -- with no parent or with an unknown one. For a node that it does not have it returns an error and
  -- writes nothing.
  pub on_ancestry-answers :
      (id : ℤ) (h : Hash) (levels : ℤ) (look : Hash → Option Node) (w : Worker F A)
      → ((k : Hash) → A.get w.store k ≡ ok (look k))
      → w.conn.faults ≡ []
      → ((n : Node)
          → look h ≡ some n
          → (ps : List Node) × (on_ancestry F A id h levels w
              ≡ (ok tt, responded F A id (A.sort_by tree_depth ps) w))
            × AreAncestors look (pos_part levels) n ps)
        × (look h ≡ none
            → on_ancestry F A id h levels w
              ≡ (err (message "asked for ancestry of unknown node %v"), w))
  unfolding on_ancestry Climbs
  on_ancestry-answers id h levels look w a e = (
    (λ n l.
        let (ps, c, p) = climb-Climbs look (pos_part levels) n w a in
        (ps, rw (a h, l, c, on_wire-send_response F A id (A.sort_by tree_depth ps) w e), p)),
    (λ l. rw (a h, l)),
  )
