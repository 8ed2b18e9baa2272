-- ===== src/Worker/Rounds.antt =====
-- The loop of BootstrapLocalStore, with a peer that has the communities with all their messages.
use mathlib.Core.List.{append_assoc}
use sprout_go.Base.{
  ◌≡◌, ◌∙◌, ap, refl, true, Eq, Option, some, List, [], ◌∷◌, ◌++◌, All, All-map, All-append,
}
use sprout_go.Base.Int.{ℤ}
use sprout_go.Base.Exec.{Result, ok}
use sprout_go.Forest.{Forest, community}
use sprout_go.Session.{is_subscribed}
use sprout_go.Conn.Send.{send_list}
use sprout_go.Worker.Store.{Archive}
use sprout_go.Worker.State.{Worker}
use sprout_go.Worker.Ingest.{request}
use sprout_go.Worker.Bootstrap.{
  bootstrap_community, bootstrap_node, bootstrap_loop, bootstrap_local_store,
}
use sprout_go.Worker.Lineage.{AreAncestors}
use sprout_go.Worker.RootFirst.{SortLaws}
use sprout_go.Worker.Subscribed.{AddressesBelow}
use sprout_go.Worker.Gained.{Has}
use sprout_go.Worker.Synchronized.{bootstrap_community-stores}
use sprout_go.Worker.Rooted.{StoreLaws, IsRooted, AreValid, KnowsAuthors}
use sprout_go.Worker.Requests.{
  Exchange, wakes, wakes-append, leaves_request, nothing_written, written_after,
}
use sprout_go.Worker.Woken.{with_wakeups}
use sprout_go.Worker.Fills.{ListsLeaves, OwesReplies, LeadsTo, round_asks, round}
use sprout_go.Worker.LaterRounds.{loop-Has, loop-StaysIn, round-HasOldPointers}

-- A community that the look-up finds, and the leaves that a peer lists for it.
pub record IsListed (F : Forest) (look : F.Hash → Option F.Node) (leaves : F.Node → List F.Node)
    (n : F.Node) : Type 0 where
  pub author : F.Hash
  pub found : look (F.id n) ≡ some n
  pub is_community : F.shape n ≡ community author
  pub is_root : F.equals (F.parent_id n) F.null_hash ≡ true
  pub leaves_found : All (λ leaf. look (F.id leaf) ≡ some leaf) (leaves n)

module _ {F : Forest} {A : Archive F} where
  open F use {Hash, Node, id, shape, parent_id, null_hash, equals, tree_depth, node_type_community}

  bootstrap_loop-at :
      (n : Node) (ns : List Node) (author : Hash) (max_communities : ℤ) (w u : Worker F A)
      {r : Result (Unit {0}) × Worker F A}
      → shape n ≡ community author
      → bootstrap_community F A n max_communities w ≡ (ok tt, u)
      → bootstrap_loop F A ns max_communities u ≡ r
      → bootstrap_loop F A (n ∷ ns) max_communities w ≡ r
  unfolding bootstrap_loop bootstrap_node
  bootstrap_loop-at n ns author max_communities w u c one rest = rw (c, one) rest

  pub bootstrap_local_store-at :
      (max_communities : ℤ) (ns : List Node) (w w1 w2 : Worker F A)
      → request F A (send_list node_type_community max_communities) w ≡ (ok ns, w1)
      → bootstrap_loop F A ns max_communities w1 ≡ (ok tt, w2)
      → bootstrap_local_store F A max_communities w ≡ (ok tt, w2)
  unfolding bootstrap_local_store
  bootstrap_local_store-at max_communities ns w w1 w2 q l = rw (q, l) refl

  -- The community is subscribed, and the store has it and these leaves.
  abbrev pub IsFilled : ⦃e : Eq Hash⦄ → (Node → List Node) → Worker F A → Node → Type 0
  IsFilled leaves v n =
      (is_subscribed (id n) v.session ≡ true)
      × Has A v.store (id n)
      × All (λ leaf. Has A v.store (id leaf)) (leaves n)

module _ {F : Forest} {A : Archive F} (laws : StoreLaws A) (look : F.Hash → Option F.Node)
    (rooted : IsRooted A look) (valid : AreValid A look) (sorts : SortLaws A)
    (ancestors : F.Node → List F.Node)
    (are : (n : F.Node) → AreAncestors F A look (F.tree_depth n) n (ancestors n))
    (lists : ListsLeaves A) (Owed : Exchange F → Type 0)
    (owes : OwesReplies F A look ancestors Owed) (leaves : F.Node → List F.Node) where
  open F use {Hash, Node, id}

  -- What comes after a round leaves what the round has stored and subscribed.
  stays :
      ⦃e : Eq Hash⦄ (ns : List Node) (max_communities : ℤ) (w w' : Worker F A) (n : Node)
      → bootstrap_loop F A ns max_communities w ≡ (ok tt, w')
      → AddressesBelow w.addresses w.session.communities
      → IsFilled leaves w n
      → IsFilled leaves w' n
  stays ns max_communities w w' n k b (i, c, h) = (
    loop-StaysIn ns max_communities w w' (id n) k (b, i),
    loop-Has laws.keeps ns max_communities w w' (id n) k c,
    All-map (λ leaf. loop-Has laws.keeps ns max_communities w w' (id leaf) k) (leaves n) h,
  )

  -- The requests of the rounds for some communities.
  abbrev pub rounds_asks : ℤ → List Node → List (List Node × List Node) → List (Exchange F)
  rounds_asks quantity [] asks = []
  rounds_asks quantity (n ∷ ns) [] = []
  rounds_asks quantity (n ∷ ns) ((local, asked) ∷ asks) =
      round_asks laws look rooted valid sorts ancestors are lists Owed owes n quantity (leaves n)
        local asked
      ++ rounds_asks quantity ns asks

  -- The rounds, one after the other.
  pub rounds :
      ⦃e : Eq Hash⦄ (ns : List Node) (max_communities : ℤ) (w : Worker F A)
      → All (IsListed F look leaves) ns
      → All (λ n. Owed (leaves_request F n max_communities (leaves n))) ns
      → w.conn.faults ≡ []
      → KnowsAuthors A look w.store
      → AddressesBelow w.addresses w.session.communities
      → (asks : List (List Node × List Node)) × (l : LeadsTo laws look rooted valid sorts ancestors
          are lists Owed owes
          (bootstrap_loop F A ns max_communities)
          (rounds_asks max_communities ns asks)
          w)
        × All (IsFilled leaves l.last) ns
  unfolding bootstrap_loop
  rounds [] max_communities w h o f a b = (
    [],
    record {
      last = w;
      works = f;
      authors = a;
      wrote = nothing_written F w.conn;
      owed = tt;
      ends = λ ks. refl;
    },
    tt,
  )
  rounds (n ∷ ns) max_communities w (i, h) (o, os) f a b =
      let (local, asked, one, all) =
        round laws look rooted valid sorts ancestors are lists Owed owes n max_communities
          (leaves n) w i.found i.is_root i.leaves_found o f a in
      let u = one.last in
      let (is_in, has, _) =
        bootstrap_community-stores laws.keeps n max_communities _ (with_wakeups [] u) b
          (one.ends []) in
      let b' =
        round-HasOldPointers n i.author max_communities _ (with_wakeups [] u) i.is_community
          (one.ends []) b in
      let (asks, rest, filled) = rounds ns max_communities u h os one.works one.authors b' in
      let said =
        round_asks laws look rooted valid sorts ancestors are lists Owed owes n max_communities
          (leaves n) local asked in
      let later = rounds_asks max_communities ns asks in
      let v = with_wakeups [] rest.last in
      (
        (local, asked) ∷ asks,
        record {
          last = rest.last;
          works = rest.works;
          authors = rest.authors;
          wrote = written_after F said later w.conn u.conn rest.last.conn one.wrote rest.wrote;
          owed = All-append Owed said later one.owed rest.owed;
          ends = λ ks.
              ap (λ taken. bootstrap_loop F A (n ∷ ns) max_communities (with_wakeups taken w))
                (ap (λ taken. taken ++ ks) (wakes-append F said later)
                  ∙ append_assoc (wakes F said) (wakes F later) ks)
              ∙ bootstrap_loop-at n ns i.author max_communities _
                  (with_wakeups (wakes F later ++ ks) u) i.is_community
                  (one.ends (wakes F later ++ ks)) (rest.ends ks);
        },
        (
          stays ns max_communities (with_wakeups (wakes F later ++ []) u) v n (rest.ends []) b'
              (is_in, has, all),
          filled,
        ),
      )
