-- ===== src/Relay/Watched.antt =====
-- Which watched files come into the store of the relay.
use text.Mathlib.TextEquality.{eq_iff}
use sprout_go.Base.{
  String, ℕ, ◌+◌, ◌≤◌, ◌≡◌, ◌∙◌, refl, true, Bool-cases, inl, inr, Option, none, some, List, arith,
}
use sprout_go.Base.Exec.{Result, ok, err, panics}
use sprout_go.Forest.{Forest, ForestLaws}
use sprout_go.Worker.Store.{Archive}
use sprout_go.ExpiringSet.{ExpiringSet, add, has}
use sprout_go.ExpiringSet.View.{IsMap, has-is_alive, is_alive-add, add-IsMap}
use sprout_go.Relay.{
  minute, Relay, on_new_message, store_node, add_if_valid, on_node, on_unmarshalled, on_file,
}

module _ (F : Forest) (A : Archive F) (add_to : F.Node → A.Store → Result (Unit {0}) × A.Store)
    (id_string : F.Hash → String) where
  open F use {Hash, Node}

  abbrev Relayed : Type 0
  Relayed = Relay F A add_to id_string

  remembered :
      (purged now later : ℕ) (k : String) (s : ExpiringSet)
      → IsMap s.elements
      → purged ≤ later
      → later ≤ now + minute
      → (has later k (add purged now k minute s)).0 ≡ true
  remembered purged now later k s m h l =
      has-is_alive later k (add purged now k minute s) (add-IsMap purged now minute k s m)
      ∙ is_alive-add purged now later minute k k s m h
      ∙ ground (arith, l, eq_iff k k)

  -- A file with a node that the relay itself has stored no longer than a minute ago changes nothing
  -- in the store, where the set of remembered nodes has one entry for each, and nodes are read back
  -- from what they are marshalled to.
  ours_is_ignored :
      (laws : ForestLaws F) (purged now later : ℕ) (n : Node) (r : Relayed)
      → IsMap r.added_ourselves.elements
      → purged ≤ later
      → later ≤ now + minute
      → (on_file F A add_to id_string later
          (some (F.marshal_binary n))
          (on_new_message F A add_to id_string purged now n r)).1.messages
        ≡ r.messages
  unfolding on_file on_node on_new_message
  ours_is_ignored laws purged now later n r m h l = rw (
    laws.unmarshal-node n,
    remembered purged now later (id_string (F.id n)) r.added_ourselves m h l,
  )

  module _ (P : A.Store → Type 0)
      (kept : (s : A.Store) (n : Node) → P s → A.validate_deep s n ≡ ok tt → P (add_to n s).1) where
    add_if_valid-kept :
        (n : Node) (v : Result (Unit {0})) (r : Relayed)
        → A.validate_deep r.messages n ≡ v
        → P r.messages
        → P (add_if_valid F A add_to id_string v n r).1.messages
    unfolding store_node
    add_if_valid-kept n (ok tt) r e p = kept r.messages n p e
    add_if_valid-kept n (err x) r e p = p
    add_if_valid-kept n panics r e p = p

    on_node-kept :
        (now : ℕ) (n : Node) (r : Relayed)
        → P r.messages
        → P (on_node F A add_to id_string now n r).1.messages
    unfolding on_node
    on_node-kept now n r p =
        let seen = has now (id_string (F.id n)) r.added_ourselves in
        let r' = record r { added_ourselves = seen.1 } in
        elim (Bool-cases seen.0) [
          | inl t ↦ rw t p
          | inr f ↦ rw f (add_if_valid-kept n (A.validate_deep r.messages n) r' refl p)
        ]

    on_unmarshalled-kept :
        (now : ℕ) (n : Option Node) (r : Relayed)
        → P r.messages
        → P (on_unmarshalled F A add_to id_string now n r).1.messages
    on_unmarshalled-kept now none r p = p
    on_unmarshalled-kept now (some n) r p = on_node-kept now n r p

    -- Whatever is read from a watched file, what holds of the store stays true if adding a node that
    -- validates against the store keeps it true.
    pub on_file-kept :
        (now : ℕ) (file : Option (List ℕ)) (r : Relayed)
        → P r.messages
        → P (on_file F A add_to id_string now file r).1.messages
    unfolding on_file
    on_file-kept now none r p = p
    on_file-kept now (some bytes) r p = on_unmarshalled-kept now (F.unmarshal_binary_node bytes) r p
