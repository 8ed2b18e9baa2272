-- ===== src/Worker/Bootstrapped.antt =====
-- What BootstrapLocalStore has done when a community went through without an error.
use sprout_go.Base.{ℕ, ◌≡◌, true, arith, Eq}
use sprout_go.Base.Int.{ℤ}
use sprout_go.Base.Exec.{ok, Exec}
use sprout_go.Base.Preserves.{Preserves-ok}
use sprout_go.Forest.{Forest}
use sprout_go.Session.{Session, subscribe, is_subscribed, any_equal}
use sprout_go.Conn.Kept.{Anything, written-Anything, delivered-Anything, requested-Anything}
use sprout_go.Conn.Send.{send_subscribe}
use sprout_go.Worker.Store.{Archive}
use sprout_go.Worker.State.{Worker}
use sprout_go.Worker.Handlers.{subscribe_new}
use sprout_go.Worker.Ingest.{request, add_node, ensure_author_available}
use sprout_go.Worker.Bootstrap.{bootstrap_community}
use sprout_go.Worker.Keeps.{IsKeptByValid, Keeps, Held, request-Keeps}
use sprout_go.Worker.KeptNode.{ensure_author_available-Keeps}
use sprout_go.Worker.Kept.{synchronize_full_tree-Keeps}
use sprout_go.Worker.Subscribed.{AddressesBelow, has_key-fresh}
use sprout_go.Worker.Reached.{HasOldPointers}
use sprout_go.Conn.KeptSends.{send_subscribe-Preserves}
use sprout_go.Worker.Ingested.{continue-ok}

subscribe-is_subscribed :
    {H : Type 0} ⦃e : Eq H⦄ (p : ℕ) (h : H) (s : Session H)
    → AddressesBelow p s.communities
    → is_subscribed h (subscribe p h s) ≡ true
unfolding subscribe is_subscribed any_equal
subscribe-is_subscribed ⦃e⦄ p h s b =
    rw (has_key-fresh p s.communities b) (ground (arith, e.beq_iff h h))

module _ (F : Forest) (A : Archive F) where
  abbrev pub AnyStore : A.Store → Type 0
  AnyStore s = Unit

  pub AnyStore-IsKeptByValid : IsKeptByValid F A AnyStore
  AnyStore-IsKeptByValid = record { add_valid = λ s n i p v. tt }

  -- A statement about the session, of a worker.
  abbrev OfSession : (Session F.Hash → ℕ → Type 0) → Worker F A → Type 0
  OfSession R = Held Anything AnyStore R

  after_ok :
      (R : Session F.Hash → ℕ → Type 0) {B : Type 0} {m : Exec (Worker F A) B} (w w' : Worker F A)
      (b : B)
      → Keeps Anything AnyStore R m
      → m w ≡ (ok b, w')
      → OfSession R w
      → OfSession R w'
  after_ok R w w' b k h o = Preserves-ok (OfSession R) w w' b k h o

  add_node-Keeps :
      (R : Session F.Hash → ℕ → Type 0) (n : F.Node) → Keeps Anything AnyStore R (add_node F A n)
  unfolding add_node
  add_node-Keeps R n = record { preserves = λ w o. o }

module _ {F : Forest} {A : Archive F} ⦃e : Eq F.Hash⦄ where
  open F use {Hash, Node}

  -- The community of a round that ends without an error is subscribed.
  pub bootstrap_community-subscribes :
      (n : Node) (max_communities : ℤ) (w w' : Worker F A)
      → AddressesBelow w.addresses w.session.communities
      → bootstrap_community F A n max_communities w ≡ (ok tt, w')
      → is_subscribed (F.id n) w'.session ≡ true
  unfolding bootstrap_community subscribe_new
  bootstrap_community-subscribes n max_communities w w' b h =
      let (_, w1, h1, r1) = continue-ok (ensure_author_available F A n w) _ tt w' h in
      let (_, w2, h2, r2) = continue-ok (add_node F A n w1) _ tt w' r1 in
      let (_, w3, h3, r3) = continue-ok (request F A (send_subscribe F n) w2) _ tt w' r2 in
      let old : OfSession F A HasOldPointers w3 =
        after_ok F A HasOldPointers w2 w3 tt
          (request-Keeps Anything (AnyStore F A) HasOldPointers (
            send_subscribe-Preserves F Anything written-Anything delivered-Anything
              requested-Anything n))
          h3
          (after_ok F A HasOldPointers w1 w2 tt (add_node-Keeps F A HasOldPointers n) h2 (
            after_ok F A HasOldPointers w w1 tt
              (ensure_author_available-Keeps Anything (AnyStore F A) HasOldPointers written-Anything
                delivered-Anything requested-Anything (AnyStore-IsKeptByValid F A) n)
              h1 (tt, tt, b))) in
      let w4 = (subscribe_new F A (F.id n) w3).1 in
      let done : OfSession F A (λ s p. is_subscribed (F.id n) s ≡ true) w' =
        after_ok F A (λ s p. is_subscribed (F.id n) s ≡ true) w4 w' tt
          (synchronize_full_tree-Keeps Anything (AnyStore F A)
            (λ s p. is_subscribed (F.id n) s ≡ true) written-Anything delivered-Anything
            requested-Anything (AnyStore-IsKeptByValid F A) n max_communities)
          r3 (tt, tt, subscribe-is_subscribed w3.addresses (F.id n) w3.session old.2) in
      done.2
