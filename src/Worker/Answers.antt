-- ===== src/Worker/Answers.antt =====
-- OnQuery and OnLeavesOf: which nodes the peer is answered with, and what a failing store does.
use sprout_go.Base.{
  ℕ, ◌-◌, ◌≤◌, ◌≡◌, refl, ap, Option, none, some, List, [], ◌∷◌, ◌++◌, length, drop, All, arith,
}
use sprout_go.Base.Int.{ℤ, pos, negsuc}
use sprout_go.Base.Exec.{Result, ok, err, panics}
use sprout_go.Base.Errors.{Error, wrapped}
use sprout_go.Forest.{Forest}
use sprout_go.Conn.State.{Conn}
use sprout_go.Conn.Dispatch.{on_conn}
use sprout_go.Conn.Parse.{response_message}
use sprout_go.Conn.Send.{send_response}
use sprout_go.Conn.Wire.{message_text}
use sprout_go.Conn.Writes.{answers-write}
use sprout_go.Worker.Store.{Archive}
use sprout_go.Worker.State.{Worker, on_wire}
use sprout_go.Worker.Handlers.{present_nodes, on_query, last_leaves, on_leaves_of}

module _ (F : Forest) (A : Archive F) where
  open F use {Hash, Node}

  -- The worker after it has answered with these nodes.
  abbrev pub responded : ℤ → List Node → Worker F A → Worker F A
  responded id nodes w = record w {
    conn = record w.conn { output = w.conn.output ++ message_text F (response_message id nodes) };
  }

  pub on_wire-send_response :
      (id : ℤ) (nodes : List Node) (w : Worker F A)
      → w.conn.faults ≡ []
      → on_wire F A (send_response F id nodes) w ≡ (ok tt, responded id nodes w)
  unfolding on_wire on_conn
  on_wire-send_response id nodes w e =
      ap (λ (p : Result (Unit {0}) × Conn Node). (p.0, record w { conn = p.1 }))
        (answers-write F w.conn id (pos 0) nodes e).1

  -- The nodes of these IDs, by a look-up that finds some of them.
  unfoldable pub nodes_of : (Hash → Option Node) → List Hash → List Node
  nodes_of look [] = []
  nodes_of look (h ∷ hs) = elim (look h) [ none ↦ nodes_of look hs | some n ↦ n ∷ nodes_of look hs ]

  pub present_nodes-nodes_of :
      (f : Error → Error) (look : Hash → Option Node) (hs : List Hash) (w : Worker F A)
      → All (λ h. A.get w.store h ≡ ok (look h)) hs
      → present_nodes F A f hs w ≡ (ok (nodes_of look hs), w)
  unfolding present_nodes nodes_of
  present_nodes-nodes_of f look [] w a = refl
  present_nodes-nodes_of f look (h ∷ hs) w a =
      grind (arith, a.0, present_nodes-nodes_of f look hs w a.1)

  -- If the store answers each look-up, OnQuery responds with the nodes that it has, in the order of
  -- their IDs, on a working transport.
  pub on_query-answers :
      (id : ℤ) (look : Hash → Option Node) (hs : List Hash) (w : Worker F A)
      → All (λ h. A.get w.store h ≡ ok (look h)) hs
      → w.conn.faults ≡ []
      → on_query F A id hs w ≡ (ok tt, responded id (nodes_of look hs) w)
  unfolding on_query
  on_query-answers id look hs w a e =
      rw (present_nodes-nodes_of _ look hs w a, on_wire-send_response id (nodes_of look hs) w e)

  present_nodes-failure :
      (f : Error → Error) (look : Hash → Option Node) (hs : List Hash) (h : Hash) (ks : List Hash)
      (x : Error) (w : Worker F A)
      → All (λ k. A.get w.store k ≡ ok (look k)) hs
      → A.get w.store h ≡ err x
      → present_nodes F A f (hs ++ h ∷ ks) w ≡ (err (f x), w)
  unfolding present_nodes
  present_nodes-failure f look [] h ks x w a e = rw e
  present_nodes-failure f look (k ∷ hs) h ks x w a e =
      rw (a.0, present_nodes-failure f look hs h ks x w a.1 e)

  -- A look-up that fails, after others that succeed, ends OnQuery with its error, and nothing is
  -- written.
  on_query-failure :
      (id : ℤ) (look : Hash → Option Node) (hs : List Hash) (h : Hash) (ks : List Hash) (x : Error)
      (w : Worker F A)
      → All (λ k. A.get w.store k ≡ ok (look k)) hs
      → A.get w.store h ≡ err x
      → on_query F A id (hs ++ h ∷ ks) w
        ≡ (err (wrapped "failed checking for node %v in store: %w" x), w)
  unfolding on_query
  on_query-failure id look hs h ks x w a e = rw (present_nodes-failure _ look hs h ks x w a e)

  -- The last nodes of a list, no more than a number.
  abbrev pub last : ℕ → List Node → List Node
  last quantity leaves = drop (length leaves - quantity) leaves

  drop_all : (xs : List Node) (q : ℕ) → length xs ≤ q → drop (length xs - q) xs ≡ xs
  drop_all xs q h = let e : length xs - q ≡ 0 = omega arith in ap (λ n. drop n xs) e

  last_leaves-last :
      (quantity : ℕ) (leaves : List Node) (w : Worker F A)
      → last_leaves F A (pos quantity) leaves w ≡ (ok (last quantity leaves), w)
  unfolding last_leaves
  last_leaves-last quantity leaves w = ground (arith, drop_all leaves quantity)

  -- If the store answers each look-up, OnLeavesOf responds on a working transport with the last of
  -- the leaves that it has, in the order of their times, as many as were asked for; and it panics if
  -- a negative number was asked for.
  pub on_leaves_of-answers :
      (id : ℤ) (root : Hash) (look : Hash → Option Node) (hs : List Hash) (w : Worker F A)
      → A.descendants_of w.store root ≡ ok hs
      → All (λ h. A.get w.store h ≡ ok (look h)) hs
      → w.conn.faults ≡ []
      → ((quantity : ℕ)
          → on_leaves_of F A id root (pos quantity) w
            ≡ (ok tt, responded id (last quantity (A.sort_by F.created_at (nodes_of look hs))) w))
        × ((n : ℕ) → on_leaves_of F A id root (negsuc n) w ≡ (panics, w))
  unfolding on_leaves_of last_leaves
  on_leaves_of-answers id root look hs w d a e = (
    (λ quantity. rw (
      d,
      present_nodes-nodes_of _ look hs w a,
      last_leaves-last quantity (A.sort_by F.created_at (nodes_of look hs)) w,
      on_wire-send_response id (last quantity (A.sort_by F.created_at (nodes_of look hs))) w e,
    )),
    (λ n. rw (d, present_nodes-nodes_of _ look hs w a)),
  )
