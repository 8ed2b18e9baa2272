-- ===== src/Relay/Shared.antt =====
-- What holds of the store that the workers of a relay share, and of their connections.
use sprout_go.Base.{String, ℕ, ◌≡◌, subst, [], All, All-map, All-middle, Eq}
use sprout_go.Base.Exec.{Result, ok}
use sprout_go.Base.Reach.{Reach, Reach-invariant}
use sprout_go.Forest.{Forest, community}
use sprout_go.Worker.Interleaved.{
  interleaved, after_others, Interferes, HoldsBetween, after_others-HoldsBetween,
  Interferes-HoldsBetween,
}
use sprout_go.Conn.Channels.{
  IsSafe, written-IsSafe, read-IsSafe, delivered-IsSafe, requested-IsSafe, new_conn-IsSafe,
}
use sprout_go.Conn.Distinct.{AreDistinct, waiting, closed, ApartFrom}
use sprout_go.Worker.Store.{Archive}
use sprout_go.Worker.State.{Worker}
use sprout_go.Worker.Keeps.{IsKeptByValid, IsKeptByCommunity}
use sprout_go.Worker.Subscribed.{AddressesBelow}
use sprout_go.Worker.Reached.{
  HasOldPointers, subscribed-HasOldPointers, unsubscribed-HasOldPointers, Step-Held,
}
use sprout_go.Relay.{on_new_message}
use sprout_go.Relay.Watched.{on_file-kept}
use sprout_go.Relay.System.{System, idle, Turn, launches, works, remembers, sees, purges}

module _ {F : Forest} {A : Archive F} where
  -- On the connection of a worker no channel is sent on twice, nor is one that was sent on still
  -- waited on; and the pointers in its session are none that is yet to come.
  abbrev pub HasSoundConn : Worker F A → Type 0
  HasSoundConn w =
      AreDistinct (closed w.conn.delivered)
      × ApartFrom (closed w.conn.delivered) (waiting w.conn.pending)
      × AddressesBelow w.addresses w.session.communities

module _ {F : Forest} {A : Archive F} (add_to : F.Node → A.Store → Result (Unit {0}) × A.Store)
    (id_string : F.Hash → String) (Changes : A.Store → A.Store → Type 0) ⦃e : Eq F.Hash⦄ where
  -- A connection on which no channel is used twice, and a session with pointers that were given.
  abbrev IsSound : Worker F A → Type 0
  IsSound w = IsSafe w.conn × HasOldPointers w.session w.addresses

  module _ (P : A.Store → Type 0) (kept : IsKeptByValid F A P) (kept' : IsKeptByCommunity F A P)
      (adds : (s : A.Store) (n : F.Node) → P s → A.validate_deep s n ≡ ok tt → P (add_to n s).1)
      (changed : (s t : A.Store) → Changes s t → P s → P t) where
    abbrev AllHeld : System F A add_to id_string Changes → Type 0
    AllHeld r = P r.relay.messages × All IsSound r.workers

    Turn-AllHeld :
        (u v : System F A add_to id_string Changes)
        → Turn F A add_to id_string Changes u v
        → AllHeld u
        → AllHeld v
    unfolding on_new_message
    Turn-AllHeld _ _ (launches r input faults now subscription_id wakeups) (p, all) =
        (p, ((new_conn-IsSafe input faults, tt), all))
    Turn-AllHeld _ _ (works r before after w v i st) (p, all) =
        let ((q, old), replace) = All-middle before w after (subst (All IsSound) i all) in
        let (q', p', old') =
          Step-Held IsSafe P HasOldPointers written-IsSafe delivered-IsSafe requested-IsSafe
            subscribed-HasOldPointers unsubscribed-HasOldPointers read-IsSafe kept kept' Changes
            changed st (q, p, old) in
        (p', replace v (q', old'))
    Turn-AllHeld _ _ (remembers r purged_at now n) h = h
    Turn-AllHeld _ _ (sees r now file) (p, all) =
        (on_file-kept F A add_to id_string P adds now file r.relay p, all)
    Turn-AllHeld _ _ (purges r s i) (p, all) = (changed r.relay.messages s i p, all)

  -- It holds of the store, and each worker is sound, after any turns.
  pub turns-kept :
      (P : A.Store → Type 0) (s : A.Store) (r : System F A add_to id_string Changes)
      → IsKeptByValid F A P
      → IsKeptByCommunity F A P
      → ((t : A.Store) (n : F.Node) → P t → A.validate_deep t n ≡ ok tt → P (add_to n t).1)
      → ((t u : A.Store) → Changes t u → P t → P u)
      → P s
      → Reach (Turn F A add_to id_string Changes) (idle F A add_to id_string Changes s) r
      → P r.relay.messages × All HasSoundConn r.workers
  turns-kept P s r kept kept' adds changed p run =
      let (p', all) =
        Reach-invariant (Turn F A add_to id_string Changes) (AllHeld P kept kept' adds changed)
          (Turn-AllHeld P kept kept' adds changed) (p, tt) run in
      (p', All-map (λ w (q, old). (q.closed_distinct, q.apart, old)) r.workers all)

module _ {F : Forest} (A : Archive F) (add_to : F.Node → A.Store → Result (Unit {0}) × A.Store)
    (id_string : F.Hash → String) (Changes : A.Store → A.Store → Type 0) ⦃e : Eq F.Hash⦄ where
  -- A relay starts workers, which read, ingest, announce and bootstrap, it sees files, and its purger
  -- and other users change its store, in any order; and whenever a node was validated, others change
  -- the store again before it is added. What holds of the store stays true if adding a node keeps it
  -- true that validates against any store of which it holds, and so does adding a community that was
  -- not validated, and so do the purger and the other users; on no connection is a channel sent on
  -- twice, nor is one that was sent on still waited on; and the pointers in each session are none
  -- that is yet to come.
  pub shared-kept :
      (P : A.Store → Type 0) (s : A.Store)
      (r : System F
        (interleaved A)
        (λ n. after_others A (add_to n))
        id_string
        (Interferes A Changes))
      → ((t u : A.Store) (n : F.Node) (subscription : ℕ)
          → P t
          → P u
          → A.validate_deep u n ≡ ok tt
          → P (A.add_as n subscription t).1)
      → ((t : A.Store) (n : F.Node) (author : F.Hash) (subscription : ℕ)
          → P t
          → F.shape n ≡ community author
          → P (A.add_as n subscription t).1)
      → ((t u : A.Store) (n : F.Node) → P t → P u → A.validate_deep u n ≡ ok tt → P (add_to n t).1)
      → ((t u : A.Store) → Changes t u → P t → P u)
      → P s
      → Reach
          (Turn F (interleaved A) (λ n. after_others A (add_to n)) id_string (Interferes A Changes))
          (idle F
            (interleaved A)
            (λ n. after_others A (add_to n))
            id_string
            (Interferes A Changes)
            (s, []))
          r
      → P r.relay.messages.0 × All (HasSoundConn {A = interleaved A}) r.workers
  shared-kept P s r valid any adds changed p run =
      let ((p', _), all) =
        turns-kept {A = interleaved A} (λ n. after_others A (add_to n)) id_string
          (Interferes A Changes) (HoldsBetween A P) (s, []) r
          (record {
            add_valid = λ t n k h v.
                after_others-HoldsBetween A P (A.add_as n k) t (λ u q. valid u t.0 n k q h.0 v) h;
          })
          (record {
            add_community = λ t n author k h c.
                after_others-HoldsBetween A P (A.add_as n k) t (λ u q. any u n author k q c) h;
          })
          (λ t n h v. after_others-HoldsBetween A P (add_to n) t (λ u q. adds u t.0 n q h.0 v) h)
          (λ t u i h. Interferes-HoldsBetween A P Changes t u changed i h) (p, tt) run in
      (p', all)
