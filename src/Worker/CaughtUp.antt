-- ===== src/Worker/CaughtUp.antt =====
-- A worker that lacks the ancestors of a node, and its peer that has them: what goes over the wire,
-- and what comes into the store.
use sprout_go.Base.{
  ℕ, ◌≤◌, ◌*◌, ◌^◌, ◌≡◌, ◌∙◌, ◌⊎◌, inl, inr, refl, subst, sym, Option, some, List, [], ◌∷◌, All,
  length, length-append, arith, Eq,
}
use sprout_go.Base.Int.{ℤ, pos, FitsInt}
use sprout_go.Base.Exec.{Result, ok, err}
use sprout_go.Base.Errors.{Error}
use sprout_go.Base.Sorted.{turned_round, Shuffles-turned_round}
use sprout_go.Forest.{Forest, ForestLaws}
use sprout_go.Conn.State.{Conn, is_response}
use sprout_go.Conn.Parse.{ancestry_message, response_message}
use sprout_go.Conn.Send.{send_ancestry_async}
use sprout_go.Conn.Dispatch.{Handlers, read_message}
use sprout_go.Conn.Writes.{send_async-writes}
use sprout_go.Conn.Taken.{alone, a_response}
use sprout_go.Worker.Store.{Archive}
use sprout_go.Worker.State.{Worker, host, with_input}
use sprout_go.Worker.Run.{handlers}
use sprout_go.Worker.Ingest.{ingest_node}
use sprout_go.Worker.Protocol.{View, IsAnswering, forebears, reply_to}
use sprout_go.Worker.Served.{climb-forebears}
use sprout_go.Worker.Answered.{request_is_answered}
use sprout_go.Worker.Lineage.{IsTop, top, AreAncestors, Climbs, climb-Climbs}
use sprout_go.Worker.RootFirst.{SortLaws, AreDeeper, lineage-IsFalling}
use sprout_go.Worker.Gained.{Has}
use sprout_go.Worker.Rooted.{StoreLaws, IsRooted, AreValid, KnowsAuthors, top_is_root}
use sprout_go.Worker.Fetched.{woken, ingest_fetched}

length-turned_round : {T : Type 0} (xs : List T) → length (turned_round xs) ≡ length xs
length-turned_round [] = refl
length-turned_round (x ∷ xs) =
    omega (arith, length-append (turned_round xs) (x ∷ []), length-turned_round xs)

ok_of : {S T : Type 0} (x y : T) (s : S) → ◌≡◌ {A = Result T × S} (ok x, s) (ok y, s) → x ≡ y
ok_of x y s h = cc

module _ (F : Forest) (A : Archive F) where
  pub owed_ancestry :
      (view : View F) (message_id : ℤ) (n : F.Node) (ns : List F.Node)
      → view.look (F.id n) ≡ some n
      → A.sort_by F.tree_depth (forebears F A view (F.tree_depth n) n) ≡ ns
      → reply_to F A view (ancestry_message message_id (F.id n) (pos (F.tree_depth n)))
        ≡ some (response_message message_id ns)
  unfolding reply_to
  owed_ancestry view message_id n ns l s = rw (l, reply_to) (rw s)

module _ {F : Forest} {A : Archive F} where
  open F use {Hash, Node, id, tree_depth}

  -- The forebears of a node are its ancestors.
  pub forebears-AreAncestors :
      ⦃eq : Eq Hash⦄ (view : View F) (w : Worker F A) (levels : ℕ) (n : Node)
      → IsAnswering A view w.store w.now
      → AreAncestors F A view.look levels n (forebears F A view levels n)
  unfolding Climbs
  forebears-AreAncestors view w levels n a =
      let (ps, e, r) = climb-Climbs F A view.look levels n w a.get_look in
      let same : ps ≡ forebears F A view levels n =
        ok_of ps _ w (sym e ∙ climb-forebears w view a levels n) in
      subst (AreAncestors F A view.look levels n) same r

  pub whole :
      (look : Hash → Option Node) (n : Node) (ps : List Node)
      → AreAncestors F A look (tree_depth n) n ps
      → (tree_depth n ≤ length ps) ⊎ IsTop F A look (top F A n ps)
  whole look n ps r = elim r.complete [ inl q ↦ inl (omega (arith, q)) | inr t ↦ inr t ]

  -- Sorted by their depth the ancestors of a node stand from the root down.
  pub sorted_ancestors :
      (look : Hash → Option Node) (n : Node) (ps : List Node)
      → SortLaws A
      → AreDeeper F A look
      → AreAncestors F A look (tree_depth n) n ps
      → A.sort_by tree_depth ps ≡ turned_round ps
  sorted_ancestors look n ps sorts d r =
      Shuffles-turned_round tree_depth (sorts.sort-Shuffles tree_depth ps)
        (sorts.sort-IsSorted tree_depth ps) (lineage-IsFalling F A look n ps d r.lineage)

  module _ ⦃e : Eq Hash⦄ where
    -- A node comes to a worker whose store lacks its parent: it does not validate. At the other end is
    -- a worker that has the node and all its ancestors. IngestNode, when it is woken by a response
    -- with the ancestors from the root down, returns no error, and leaves the node and each of its
    -- ancestors in the store; and what it has written is read at the other end, and answered with
    -- just this response, which arrives on the channel of its request. Both transports work, and nothing else
    -- was written on them; the ancestors fit a slice; the store knows the authors, takes and keeps
    -- what validates, and a node validates where its author, its parent and its community are there.
    pub catches_up :
        (n : Node) (view : View F) (client : Handlers Hash Node (Conn Node)) (peer w : Worker F A)
        (x : Error)
        → ForestLaws F
        → StoreLaws A
        → SortLaws A
        → IsRooted A view.look
        → AreValid A view.look
        → IsAnswering A view peer.store peer.now
        → view.look (id n) ≡ some n
        → peer.conn.faults ≡ []
        → peer.conn.output ≡ []
        → w.conn.faults ≡ []
        → w.conn.output ≡ []
        → FitsInt w.conn.next_message_id
        → 16 * tree_depth n ≤ 2 ^ 48
        → KnowsAuthors A view.look w.store
        → A.validate_deep w.store n ≡ err x
        → let ancestors = forebears F A view (tree_depth n) n in
          let asked = (send_ancestry_async F (id n) (pos (tree_depth n)) w.conn).1 in
          AreAncestors F A view.look (tree_depth n) n ancestors
          × ((v : Worker F A) × (ingest_node F A n (woken (turned_round ancestors) w) ≡ (ok tt, v))
              × (let answered =
                    (read_message F
                      (host F A)
                      (handlers F A)
                      (with_input F A v.conn.output peer)).1 in
                  let heard =
                    (read_message F alone client
                      (record asked { input = answered.conn.output })).1 in
                  heard.delivered
                  ≡ (w.conn.channels, is_response (turned_round ancestors)) ∷ w.conn.delivered)
              × Has A v.store (id n)
              × All (λ p. Has A v.store (id p)) ancestors)
    catches_up n view client peer w x fl laws sorts rooted valid a l pf po wf wo i d ka e =
        let ps = forebears F A view (tree_depth n) n in
        let r = forebears-AreAncestors view peer (tree_depth n) n a in
        let order = sorted_ancestors view.look n ps sorts rooted.deeper r in
        let t = top_is_root A view.look (id n) n ps rooted l r.lineage (whole view.look n ps r) in
        let asked = (send_ancestry_async F (id n) (pos (tree_depth n)) w.conn).1 in
        let (v, ends, wrote, has, have) =
          ingest_fetched laws view.look rooted valid n ps w x l r.lineage t wf ka e in
        let answer =
          request_is_answered F fl A client (send_ancestry_async F (id n) (pos (tree_depth n)))
            w.conn peer view (ancestry_message w.conn.next_message_id (id n) (pos (tree_depth n)))
            (response_message w.conn.next_message_id (turned_round ps))
            (is_response (turned_round ps))
            (send_async-writes F w.conn 0 (pos (tree_depth n)) [] (id n) n [] wf).3 wo a pf po
            (i, omega (arith, d)) (i, omega (arith, d, r.bounded, length-turned_round ps))
            (owed_ancestry F A view w.conn.next_message_id n (turned_round ps) l order)
            (a_response (turned_round ps)) in
        (
          r,
          (
            v,
            ends,
            subst
                (λ t.
                  (read_message F alone client (record asked {
                    input =
                        (read_message F (host F A) (handlers F A)
                          (with_input F A t peer)).1.conn.output;
                  })).1.delivered
                  ≡ (w.conn.channels, is_response (turned_round ps)) ∷ w.conn.delivered)
                (sym wrote) answer,
            has,
            have,
          ),
        )
