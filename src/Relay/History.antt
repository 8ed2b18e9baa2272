-- ===== src/Relay/History.antt =====
-- The relay against the history of what it has stored and of the files that it has seen.
use sprout_go.Base.{
  String, ℕ, ◌≤◌, ◌≡◌, ◌∙◌, refl, ap, Bool-cases, inl, inr, Option, none, some, List, [], ◌∷◌, All,
  if◌then◌else◌,
}
use sprout_go.Base.Exec.{Result, ok, err, panics}
use sprout_go.Forest.{Forest, ForestLaws}
use sprout_go.Worker.Store.{Archive}
use sprout_go.ExpiringSet.{new_expiring_set, add, has}
use sprout_go.ExpiringSet.History.{
  Call, adds, asks, purged_at, apply, replay, expires, not_yet, has-replay,
}
use sprout_go.Relay.{
  minute, Relay, on_new_message, store_node, add_if_valid, on_node, on_unmarshalled, on_file,
}
use sprout_go.Relay.Watched.{on_file-kept}

-- A node comes into the store, or a watched file is handled, of which this was read; with the times
-- that are read off the clock.
pub data Event (N : Type 0) : Type 0 where
  stores : (purged now : ℕ) → N → Event N
  sees : (now : ℕ) → Option (List ℕ) → Event N

module _ (F : Forest) (A : Archive F) (add_to : F.Node → A.Store → Result (Unit {0}) × A.Store)
    (id_string : F.Hash → String) where
  open F use {Hash, Node}

  abbrev pub new_relay : A.Store → Relay F A add_to id_string
  new_relay s = record { messages = s; added_ourselves = new_expiring_set }

  -- The relay after some events, the latest first. A node is in the store when the callback for it
  -- runs, so `stores` has what the callback does.
  unfoldable pub after : List (Event Node) → A.Store → Relay F A add_to id_string
  after [] s = new_relay s
  after (stores purged now n ∷ h) s = on_new_message F A add_to id_string purged now n (after h s)
  after (sees now file ∷ h) s = (on_file F A add_to id_string now file (after h s)).1

  -- The calls that the events make on the set of remembered nodes.
  abbrev asked_for : ℕ → Option Node → List Call → List Call
  asked_for now none cs = cs
  asked_for now (some n) cs = asks now (id_string (F.id n)) ∷ cs

  abbrev read_from : ℕ → Option (List ℕ) → List Call → List Call
  read_from now none cs = cs
  read_from now (some bytes) cs = asked_for now (F.unmarshal_binary_node bytes) cs

  unfoldable pub calls_of : List (Event Node) → List Call
  calls_of [] = []
  calls_of (stores purged now n ∷ h) = adds purged now (id_string (F.id n)) minute ∷ calls_of h
  calls_of (sees now file ∷ h) = read_from now file (calls_of h)

  add_if_valid-remembers :
      (v : Result (Unit {0})) (n : Node) (r : Relay F A add_to id_string)
      → (add_if_valid F A add_to id_string v n r).1.added_ourselves ≡ r.added_ourselves
  unfolding store_node
  add_if_valid-remembers (ok u) n r = refl
  add_if_valid-remembers (err x) n r = refl
  add_if_valid-remembers panics n r = refl

  on_node-asks :
      (now : ℕ) (n : Node) (r : Relay F A add_to id_string)
      → (on_node F A add_to id_string now n r).1.added_ourselves
        ≡ (has now (id_string (F.id n)) r.added_ourselves).1
  unfolding on_node
  on_node-asks now n r =
      let seen = has now (id_string (F.id n)) r.added_ourselves in
      let r' = record r { added_ourselves = seen.1 } in
      elim (Bool-cases seen.0) [
        | inl t ↦ rw t
        | inr f ↦ rw f (add_if_valid-remembers (A.validate_deep r.messages n) n r')
      ]

  remembers_asked :
      (now : ℕ) (found : Option Node) (r : Relay F A add_to id_string) (cs : List Call)
      → r.added_ourselves ≡ replay cs
      → (on_unmarshalled F A add_to id_string now found r).1.added_ourselves
        ≡ replay (asked_for now found cs)
  unfolding replay apply
  remembers_asked now none r cs e = e
  remembers_asked now (some n) r cs e =
      on_node-asks now n r ∙ ap (λ x. (has now (id_string (F.id n)) x).1) e

  remembers_read :
      (now : ℕ) (file : Option (List ℕ)) (r : Relay F A add_to id_string) (cs : List Call)
      → r.added_ourselves ≡ replay cs
      → (on_file F A add_to id_string now file r).1.added_ourselves ≡ replay (read_from now file cs)
  unfolding on_file
  remembers_read now none r cs e = e
  remembers_read now (some bytes) r cs e =
      remembers_asked now (F.unmarshal_binary_node bytes) r cs e

  after-replay :
      (h : List (Event Node)) (s : A.Store) → (after h s).added_ourselves ≡ replay (calls_of h)
  unfolding after calls_of replay apply on_new_message
  after-replay [] s = refl
  after-replay (stores purged now n ∷ h) s =
      ap (λ x. add purged now (id_string (F.id n)) minute x) (after-replay h s)
  after-replay (sees now file ∷ h) s =
      remembers_read now file (after h s) (calls_of h) (after-replay h s)

  -- What becomes of the store when a file with a node of another process is handled.
  abbrev pub with_valid : Result (Unit {0}) → Node → A.Store → A.Store
  with_valid (ok u) n s = (add_to n s).1
  with_valid _ n s = s

  add_if_valid-with_valid :
      (v : Result (Unit {0})) (n : Node) (r : Relay F A add_to id_string)
      → (add_if_valid F A add_to id_string v n r).1.messages ≡ with_valid v n r.messages
  unfolding store_node
  add_if_valid-with_valid (ok u) n r = refl
  add_if_valid-with_valid (err x) n r = refl
  add_if_valid-with_valid panics n r = refl

  on_node-messages :
      (now : ℕ) (n : Node) (r : Relay F A add_to id_string)
      → (on_node F A add_to id_string now n r).1.messages ≡ (
          if (has now (id_string (F.id n)) r.added_ourselves).0
          then r.messages
          else with_valid (A.validate_deep r.messages n) n r.messages)
  unfolding on_node
  on_node-messages now n r =
      let seen = has now (id_string (F.id n)) r.added_ourselves in
      let r' = record r { added_ourselves = seen.1 } in
      elim (Bool-cases seen.0) [
        | inl t ↦ rw t
        | inr f ↦ rw f (add_if_valid-with_valid (A.validate_deep r.messages n) n r')
      ]

  -- After any history in which the set of remembered nodes was not purged later than now: a file
  -- with a node is passed over exactly when a node with its ID came into the store and the latest
  -- time was no longer than a minute ago; otherwise the node is added if it validates. Nodes are read
  -- back from what they are marshalled to.
  pub on_file-after :
      (laws : ForestLaws F) (h : List (Event Node)) (s : A.Store) (now : ℕ) (n : Node)
      → All (λ c. purged_at c ≤ now) (calls_of h)
      → (on_file F A add_to id_string now (some (F.marshal_binary n)) (after h s)).1.messages ≡ (
          let stored = (after h s).messages in
          if not_yet now (expires (id_string (F.id n)) (calls_of h))
          then stored
          else with_valid (A.validate_deep stored n) n stored)
  unfolding on_file
  on_file-after laws h s now n a =
      let r = after h s in
      let k = id_string (F.id n) in
      let seen : (has now k r.added_ourselves).0 ≡ not_yet now (expires k (calls_of h)) =
        ap (λ x. (has now k x).0) (after-replay h s) ∙ has-replay k now (calls_of h) a in
      rw (laws.unmarshal-node n) (
        on_node-messages now n r
        ∙ ap (λ b. if b then r.messages else with_valid (A.validate_deep r.messages n) n r.messages)
            seen)

  -- Whatever comes into the store and is read from watched files, in any order, what holds of the
  -- store stays true if adding a node that validates against the store keeps it true.
  pub after-kept :
      (P : A.Store → Type 0) (h : List (Event Node)) (s : A.Store)
      → ((t : A.Store) (n : Node) → P t → A.validate_deep t n ≡ ok tt → P (add_to n t).1)
      → P s
      → P (after h s).messages
  unfolding after on_new_message
  after-kept P [] s kept p = p
  after-kept P (stores purged now n ∷ h) s kept p = after-kept P h s kept p
  after-kept P (sees now file ∷ h) s kept p =
      on_file-kept F A add_to id_string P kept now file (after h s) (after-kept P h s kept p)
