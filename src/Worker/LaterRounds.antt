-- ===== src/Worker/LaterRounds.antt =====
-- What the loop of BootstrapLocalStore leaves as it is: what the store has, and what is subscribed.
use sprout_go.Base.{ℕ, ◌≡◌, true, Eq, List, arith}
use sprout_go.Base.Int.{ℤ}
use sprout_go.Base.Exec.{ok}
use sprout_go.Base.Preserves.{Preserves-ok}
use sprout_go.Forest.{Forest, community}
use sprout_go.Session.{Session, subscribe, is_subscribed, any_equal}
use sprout_go.Conn.Kept.{Anything, written-Anything, delivered-Anything, requested-Anything}
use sprout_go.Worker.Store.{Archive}
use sprout_go.Worker.State.{Worker}
use sprout_go.Worker.Bootstrap.{bootstrap_community, bootstrap_loop}
use sprout_go.Worker.Keeps.{IsKeptBySubscribe, IsKeptByCommunity, Always, subscribed-Always, Held}
use sprout_go.Worker.KeptBootstrap.{bootstrap_community-Keeps, bootstrap_loop-Keeps}
use sprout_go.Worker.Bootstrapped.{AnyStore, AnyStore-IsKeptByValid}
use sprout_go.Worker.Gained.{Has, KeepsNodes, Has-IsKeptByValid}
use sprout_go.Worker.Subscribed.{AddressesBelow, has_key-fresh, subscribe-AddressesBelow}
use sprout_go.Worker.Reached.{HasOldPointers, subscribed-HasOldPointers}

module _ {H : Type 0} ⦃e : Eq H⦄ where
  -- A community is subscribed, and the pointers in the session were all given before.
  abbrev pub StaysIn : H → Session H → ℕ → Type 0
  StaysIn h s p = AddressesBelow p s.communities × (is_subscribed h s ≡ true)

  StaysIn-IsKeptBySubscribe : (h : H) → IsKeptBySubscribe H (StaysIn h)
  unfolding subscribe is_subscribed any_equal
  StaysIn-IsKeptBySubscribe h = record {
    subscribed = λ p k s (b, i). (
      subscribe-AddressesBelow p k s b,
      rw (has_key-fresh p s.communities b) (ground (arith, i)),
    );
  }

module _ {F : Forest} {A : Archive F} where
  open F use {Hash, Node, shape}

  AnyStore-IsKeptByCommunity : IsKeptByCommunity F A (AnyStore F A)
  AnyStore-IsKeptByCommunity = record { add_community = λ s n author i p c. tt }

  pub loop-Has :
      (laws : KeepsNodes A) (ns : List Node) (max_communities : ℤ) (w w' : Worker F A) (h : Hash)
      → bootstrap_loop F A ns max_communities w ≡ (ok tt, w')
      → Has A w.store h
      → Has A w'.store h
  loop-Has laws ns max_communities w w' h k o =
      (Preserves-ok (Held Anything (λ s. Has A s h) Always) w w' tt
        (bootstrap_loop-Keeps Anything (λ s. Has A s h) Always written-Anything delivered-Anything
          requested-Anything (Has-IsKeptByValid laws h)
          (record { add_community = λ s n author i p c. laws.loses_none n i s h p })
          subscribed-Always ns max_communities)
        k (tt, o, tt)).1

  module _ ⦃e : Eq Hash⦄ where
    pub loop-StaysIn :
        (ns : List Node) (max_communities : ℤ) (w w' : Worker F A) (h : Hash)
        → bootstrap_loop F A ns max_communities w ≡ (ok tt, w')
        → StaysIn h w.session w.addresses
        → is_subscribed h w'.session ≡ true
    loop-StaysIn ns max_communities w w' h k i =
        (Preserves-ok (Held Anything (AnyStore F A) (StaysIn h)) w w' tt
          (bootstrap_loop-Keeps Anything (AnyStore F A) (StaysIn h) written-Anything
            delivered-Anything requested-Anything (AnyStore-IsKeptByValid F A)
            AnyStore-IsKeptByCommunity (StaysIn-IsKeptBySubscribe h) ns max_communities)
          k (tt, tt, i)).2.1

    pub round-HasOldPointers :
        (n : Node) (author : Hash) (max_communities : ℤ) (w w' : Worker F A)
        → shape n ≡ community author
        → bootstrap_community F A n max_communities w ≡ (ok tt, w')
        → AddressesBelow w.addresses w.session.communities
        → AddressesBelow w'.addresses w'.session.communities
    round-HasOldPointers n author max_communities w w' c k b =
        (Preserves-ok (Held Anything (AnyStore F A) HasOldPointers) w w' tt
          (bootstrap_community-Keeps Anything (AnyStore F A) HasOldPointers written-Anything
            delivered-Anything requested-Anything (AnyStore-IsKeptByValid F A)
            AnyStore-IsKeptByCommunity subscribed-HasOldPointers n author max_communities c)
          k (tt, tt, b)).2
