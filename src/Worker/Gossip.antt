-- ===== src/Worker/Gossip.antt =====
-- How a node and its ancestors get from one worker to another.
use sprout_go.Base.{ℕ, ◌≤◌, ◌*◌, ◌^◌, ◌≡◌, ◌∙◌, refl, sym, subst, true, some, [], ◌∷◌, All, Eq}
use sprout_go.Base.Int.{pos, FitsInt}
use sprout_go.Base.Exec.{ok, err}
use sprout_go.Base.Errors.{Error}
use sprout_go.Base.Sorted.{turned_round}
use sprout_go.Forest.{Forest, ForestLaws}
use sprout_go.Conn.State.{Conn, is_response}
use sprout_go.Conn.Send.{send_ancestry_async, status_ok}
use sprout_go.Conn.Dispatch.{Handlers, read_message}
use sprout_go.Conn.Taken.{alone}
use sprout_go.Worker.Store.{Archive}
use sprout_go.Worker.State.{Worker, host, with_input}
use sprout_go.Worker.Run.{handlers}
use sprout_go.Worker.Ingest.{ingest_node, handle_new_node}
use sprout_go.Worker.Announce.{start_ingesting}
use sprout_go.Worker.Announced.{is_welcome, is_wanted, reported}
use sprout_go.Worker.Announcing.{handle_new_node-faults}
use sprout_go.Worker.Propagates.{hears_announcement, announced_text}
use sprout_go.Worker.Protocol.{View, IsAnswering, forebears}
use sprout_go.Worker.Reached.{handle_new_node-store}
use sprout_go.Worker.RootFirst.{SortLaws}
use sprout_go.Worker.Gained.{Has}
use sprout_go.Worker.Rooted.{StoreLaws, IsRooted, AreValid, KnowsAuthors}
use sprout_go.Worker.Fetched.{woken}
use sprout_go.Worker.CaughtUp.{catches_up}

module _ {F : Forest} {A : Archive F} where
  -- A worker whose peer has read what it wrote.
  abbrev pub drained : Worker F A → Worker F A
  drained w = record w { conn = record w.conn { output = [] } }

  abbrev pub at_time : ℕ → Worker F A → Worker F A
  at_time now w = record w { now = now }

module _ {F : Forest} {A : Archive F} ⦃e : Eq F.Hash⦄ where
  open F use {Hash, Node, id, shape, tree_depth}

  -- A worker handles a new node, and announces it. The worker at the other end wants the node, but
  -- its store lacks the node's parent. It answers with the status OK, and starts to ingest the node:
  -- IngestNode, when it is woken by a response with the ancestors from the root down, returns no
  -- error, and leaves the node and each of its ancestors in the store; and what it has written is
  -- read by the first worker, at any later time, and answered with just this response, which arrives
  -- on the channel of its request.
  -- Both transports work, and nothing else was written on them; the ancestors fit a slice; the first
  -- worker's store answers, and has the node and all its ancestors; the other store knows the
  -- authors, takes and keeps what validates, and a node validates where its author, its parent and
  -- its community are there.
  pub gossip_spreads :
      (n : Node) (view : View F) (client : Handlers Hash Node (Conn Node)) (u w : Worker F A)
      (later : ℕ) (x : Error)
      → ForestLaws F
      → StoreLaws A
      → SortLaws A
      → IsRooted A view.look
      → AreValid A view.look
      → IsAnswering A view u.store later
      → view.look (id n) ≡ some n
      → FitsInt u.conn.next_message_id
      → u.conn.faults ≡ []
      → u.conn.output ≡ []
      → is_welcome F A u.session (shape n) ≡ true
      → FitsInt w.conn.next_message_id
      → w.conn.faults ≡ []
      → is_wanted F A w n ≡ true
      → 16 * tree_depth n ≤ 2 ^ 48
      → KnowsAuthors A view.look w.store
      → A.validate_deep w.store n ≡ err x
      → let u' = (handle_new_node F A n u).1 in
        let (result, v) =
          read_message F (host F A) (handlers F A) (with_input F A u'.conn.output w) in
        let ancestors = forebears F A view (tree_depth n) n in
        let asked = (send_ancestry_async F (id n) (pos (tree_depth n)) (drained v).conn).1 in
        (result ≡ ok tt)
        × (v.ingesting ≡ n ∷ w.ingesting)
        × ((last : Worker F A) × (ingest_node F A n (woken (turned_round ancestors) (drained v))
              ≡ (ok tt, last))
            × (let answered =
                  (read_message F
                    (host F A)
                    (handlers F A)
                    (with_input F A last.conn.output (at_time later (drained u')))).1 in
                let heard =
                  (read_message F alone client (record asked { input = answered.conn.output })).1 in
                heard.delivered
                ≡ (v.conn.channels, is_response (turned_round ancestors)) ∷ v.conn.delivered)
            × Has A last.store (id n)
            × All (λ p. Has A last.store (id p)) ancestors)
  unfolding is_wanted
  gossip_spreads n view client u w later x fl laws sorts rooted valid a l ui uf uo c wi wf h d ka
        k =
      let t = announced_text F A fl n u uf uo c in
      let message_id = u.conn.next_message_id in
      let v = reported F A message_id status_ok (start_ingesting F A n (with_input F A [] w)) in
      let peer = at_time later (drained (handle_new_node F A n u).1) in
      let answers : IsAnswering A view peer.store later =
        subst (λ s. IsAnswering A view s later) (sym (handle_new_node-store n u)) a in
      let (r, stored) =
        catches_up n view client peer (drained v) x fl laws sorts rooted valid answers l
          (handle_new_node-faults F A n u uf ∙ uf) refl wf refl wi d ka k in
      rw (hears_announcement F A fl n message_id (with_input F A _ w) ui wf t h)
        (refl, refl, stored)
