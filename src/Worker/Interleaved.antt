-- ===== src/Worker/Interleaved.antt =====
-- A store whose other users also act in the middle of an operation: between a node's validation and
-- its addition, where IngestNode, synchronizeFullTree and the relay's callback for files take no
-- lock.
use sprout_go.Base.{◌≡◌, ◌⊎◌, inl, inr, subst, List, [], ◌∷◌, All, All-map}
use sprout_go.Base.Exec.{Result}
use sprout_go.Forest.{Forest}
use sprout_go.Worker.Store.{Archive}

module _ {F : Forest} (A : Archive F) where
  -- A store, and what others make of it right before each addition to come.
  abbrev pub Interleaving : Type 0
  Interleaving = A.Store × List (A.Store → A.Store)

  abbrev pub after_others :
      (A.Store → Result (Unit {0}) × A.Store) → Interleaving → Result (Unit {0}) × Interleaving
  after_others add (s, []) = let (r, t) = add s in (r, (t, []))
  after_others add (s, c ∷ cs) = let (r, t) = add (c s) in (r, (t, cs))

  -- The store as the operations see it. Others have their turn before an addition, after whatever
  -- was looked up or validated for it.
  abbrev pub interleaved : Archive F
  interleaved = record {
    Store = Interleaving;
    recent = λ s node_type quantity. A.recent s.0 node_type quantity;
    get = λ s h. A.get s.0 h;
    get_identity = λ s h. A.get_identity s.0 h;
    descendants_of = λ s h. A.descendants_of s.0 h;
    add_as = λ n subscription s. after_others (A.add_as n subscription) s;
    leaves_of = λ s h. A.leaves_of s.0 h;
    validate_deep = λ s n. A.validate_deep s.0 n;
    is_expired = A.is_expired;
    sort_by = A.sort_by;
  }

  -- Between operations others have changed the store, or not, and what they do next is settled.
  abbrev pub Interferes : (A.Store → A.Store → Type 0) → Interleaving → Interleaving → Type 0
  Interferes Changes s t =
      ((s.0 ≡ t.0) ⊎ Changes s.0 t.0) × All (λ c. (u : A.Store) → Changes u (c u)) t.1

  -- It holds of the store, and others keep it true.
  abbrev pub HoldsBetween : (A.Store → Type 0) → Interleaving → Type 0
  HoldsBetween P s = P s.0 × All (λ c. (u : A.Store) → P u → P (c u)) s.1

  module _ (P : A.Store → Type 0) where
    pub after_others-HoldsBetween :
        (add : A.Store → Result (Unit {0}) × A.Store) (s : Interleaving)
        → ((u : A.Store) → P u → P (add u).1)
        → HoldsBetween P s
        → HoldsBetween P (after_others add s).1
    after_others-HoldsBetween add (s, []) k (p, all) = (k s p, tt)
    after_others-HoldsBetween add (s, c ∷ cs) k (p, (f, all)) = (k (c s) (f s p), all)

    pub Interferes-HoldsBetween :
        (Changes : A.Store → A.Store → Type 0) (s t : Interleaving)
        → ((u v : A.Store) → Changes u v → P u → P v)
        → Interferes Changes s t
        → HoldsBetween P s
        → HoldsBetween P t
    Interferes-HoldsBetween Changes s t changed (inl same, cs) (p, all) =
        (subst P same p, All-map (λ c f u. changed u (c u) (f u)) t.1 cs)
    Interferes-HoldsBetween Changes s t changed (inr o, cs) (p, all) =
        (changed s.0 t.0 o p, All-map (λ c f u. changed u (c u) (f u)) t.1 cs)
