-- ===== src/Worker/CaughtUpTests.antt =====
-- Node 3 of the example comes to a worker that has node 0 alone, from a peer that has its ancestors;
-- and the worker bootstraps its store from such a peer.
use sprout_go.Base.{ℕ, ◌+◌, ◌-◌, ◌≡◌, refl, none, List, [], ◌∷◌, All, arith}
use sprout_go.Base.Int.{pos}
use sprout_go.Base.Exec.{ok}
use sprout_go.Base.Errors.{message}
use sprout_go.Example.{hash_eq}
use sprout_go.Session.{is_subscribed, any_equal, subscribe, new_session}
use sprout_go.Worker.Gossip.{drained, at_time, gossip_spreads}
use sprout_go.Worker.Announced.{is_wanted}
use sprout_go.Worker.Ingest.{handle_new_node}
use sprout_go.Worker.Bootstrap.{bootstrap_local_store}
use sprout_go.Worker.Answers.{nodes_of}
use sprout_go.Worker.Requests.{Exchange, wakes, texts}
use sprout_go.Worker.Woken.{with_wakeups}
use sprout_go.Worker.Rounds.{IsFilled}
use sprout_go.Worker.Restores.{communities_in, leaves_in, IsOwed, bootstrap_restores}
use sprout_go.Worker.State.{Worker}
use sprout_go.Worker.Ingest.{ingest_node}
use sprout_go.Worker.Lineage.{AreAncestors}
use sprout_go.Worker.Gained.{Has}
use sprout_go.Worker.Fetched.{woken}
use sprout_go.Worker.CaughtUp.{catches_up}
use sprout_go.Worker.Protocol.{forebears}
use sprout_go.Worker.State.{host, with_input}
use sprout_go.Worker.Run.{handlers}
use sprout_go.Conn.Dispatch.{Handlers, read_message}
use sprout_go.Conn.Taken.{alone}
use sprout_go.Conn.Send.{send_ancestry_async}
use sprout_go.Conn.State.{Conn, new_conn, is_response}
use sprout_go.Worker.ToyTree.{
  tree, tree_laws, strict, strict_worker, strict-StoreLaws, peer_nodes, look, look-IsRooted,
  strict-AreValid, look-KnowsAuthors, strict-SortLaws, strict_view, strict-IsAnswering,
  strict-StrictLaws, root-IsClosed, look-EndsAtRoots, strict-ListsLeaves,
}

abbrev no_handlers : Handlers ℕ ℕ (Conn ℕ)
no_handlers = record {
  on_version = none;
  on_list = none;
  on_query = none;
  on_ancestry = none;
  on_leaves_of = none;
  on_subscribe = none;
  on_unsubscribe = none;
  on_announce = none;
}

catches_up_example :
    let asked = (send_ancestry_async tree 4 (pos 2) (new_conn [] [])).1 in
    AreAncestors tree strict look 2 3 (2 ∷ 1 ∷ [])
    × ((v : Worker tree strict) × (ingest_node tree strict 3
            (woken (1 ∷ 2 ∷ []) (strict_worker (0 ∷ [])))
          ≡ (ok tt, v))
        × (let answered =
              (read_message tree
                (host tree strict)
                (handlers tree strict)
                (with_input tree strict v.conn.output (strict_worker peer_nodes))).1 in
            let heard =
              (read_message tree alone no_handlers
                (record asked { input = answered.conn.output })).1 in
            heard.delivered ≡ (0, is_response (1 ∷ 2 ∷ [])) ∷ [])
        × Has strict v.store 4
        × All (λ p. Has strict v.store (p + 1)) (2 ∷ 1 ∷ []))
unfolding forebears
catches_up_example =
    catches_up 3 strict_view no_handlers (strict_worker peer_nodes) (strict_worker (0 ∷ []))
      (message "unknown parent") tree_laws strict-StoreLaws strict-SortLaws look-IsRooted
      strict-AreValid strict-IsAnswering refl refl refl refl refl (omega arith) (omega arith)
      look-KnowsAuthors refl

bootstrap_restores_example :
    let ns = communities_in tree strict strict_view 10 in
    let leaves = leaves_in tree strict strict_view 10 in
    let w = strict_worker (0 ∷ []) in
    (said : List (Exchange tree)) × (v : Worker tree strict) × (bootstrap_local_store tree strict
        (pos 10)
        (with_wakeups (wakes tree said) w)
      ≡ (ok tt, v))
    × (v.wakeups ≡ [])
    × All (IsOwed tree strict strict_view) said
    × (v.conn.output ≡ texts tree (pos 0) said)
    × All (IsFilled leaves v) ns
    × All
        (λ n.
          All
            (λ leaf.
              All
                (λ p. Has strict v.store (p + 1))
                (forebears tree strict strict_view (leaf - 1) leaf))
            (leaves n))
        ns
unfolding nodes_of
bootstrap_restores_example =
    bootstrap_restores strict-StoreLaws 10 strict_view (strict_worker peer_nodes)
      (strict_worker (0 ∷ [])) strict-StrictLaws strict-SortLaws strict-ListsLeaves look-IsRooted
      look-EndsAtRoots strict-AreValid strict-IsAnswering
      (
        record {
          author = 1;
          found = refl;
          is_community = refl;
          is_root = refl;
          leaves_found = (refl, (refl, (refl, (refl, tt))));
        },
        tt,
      )
      refl root-IsClosed look-KnowsAuthors tt

-- A worker with these nodes, whose peer has subscribed to the community.
abbrev member : List ℕ → Worker tree strict
member ns = record (strict_worker ns) { session = subscribe 0 2 new_session }

gossip_spreads_example :
    let u' = (handle_new_node tree strict 3 (member peer_nodes)).1 in
    let (result, v) =
      read_message tree
        (host tree strict)
        (handlers tree strict)
        (with_input tree strict u'.conn.output (member (0 ∷ []))) in
    let asked = (send_ancestry_async tree 4 (pos 2) (drained v).conn).1 in
    (result ≡ ok tt)
    × (v.ingesting ≡ 3 ∷ [])
    × ((last : Worker tree strict) × (ingest_node tree strict 3 (woken (1 ∷ 2 ∷ []) (drained v))
          ≡ (ok tt, last))
        × (let answered =
              (read_message tree
                (host tree strict)
                (handlers tree strict)
                (with_input tree strict last.conn.output (at_time 5 (drained u')))).1 in
            let heard =
              (read_message tree alone no_handlers
                (record asked { input = answered.conn.output })).1 in
            heard.delivered ≡ (v.conn.channels, is_response (1 ∷ 2 ∷ [])) ∷ v.conn.delivered)
        × Has strict last.store 4
        × All (λ p. Has strict last.store (p + 1)) (2 ∷ 1 ∷ []))
unfolding forebears is_wanted subscribe is_subscribed any_equal
gossip_spreads_example =
    gossip_spreads 3 strict_view no_handlers (member peer_nodes) (member (0 ∷ [])) 5
      (message "unknown parent") tree_laws strict-StoreLaws strict-SortLaws look-IsRooted
      strict-AreValid
      (record {
        get_look = λ h. refl;
        recent_listed = λ t q. refl;
        descendants_below = λ h. refl;
        expired_now = λ n. refl;
      })
      refl (omega arith) refl refl refl (omega arith) refl refl (omega arith) look-KnowsAuthors refl
