-- ===== src/Worker/BootstrapTests.antt =====
-- What a worker has asked its peer for: an author, and the community of node 1 in a round of
-- BootstrapLocalStore.
use sprout_go.Base.{ℕ, ◌⊎◌, some, ◌+◌, List, All, ◌≡◌, refl, true, [], ◌∷◌}
use sprout_go.Base.Int.{pos, succ_int}
use sprout_go.Base.Exec.{ok}
use sprout_go.Example.{forest, hash_eq}
use sprout_go.Session.{is_subscribed}
use sprout_go.Conn.State.{
  is_status, is_response, write_message_async, get_next_message_id, await_reply,
  write_message_with_id, write, send_to_waiting_channel,
}
use sprout_go.Conn.Send.{
  replied, send_subscribe, subscribe_op, subscribe_op_id, subscribe_op_id_async, send_leaves_of,
  send_leaves_of_async, send_announce, send_announce_async, send_ancestry, send_ancestry_async,
  send_query, send_query_async, handle_expected_status, handle_expected_response, await_status,
  await_response,
}
use sprout_go.Worker.State.{Worker, on_wire}
use sprout_go.Worker.Handlers.{present_nodes, subscribe_new}
use sprout_go.Worker.Ingest.{
  ensure_author_available, ensure_author_of, ensure_author, fetch_author, add_author, add_node,
  request, validate,
}
use sprout_go.Worker.Bootstrap.{
  bootstrap_community, synchronize_full_tree, synchronize_leaves, synchronize_leaf, add_all,
}
use sprout_go.Worker.Authors.{ensure_author-ok}
use sprout_go.Worker.Toy.{archive, archive-KeepsNodes, worker}
use sprout_go.Worker.Gained.{Has}
use sprout_go.Worker.Synchronized.{until_subscribed, bootstrap_community-stores}

-- The peer accepts the subscription and the announcement, and has the leaf 3, of whose ancestry
-- node 2 is not in the store.
abbrev has_a_leaf : Worker forest archive
has_a_leaf = record (worker (0 ∷ [])) {
  wakeups =
      replied (is_status (pos 0))
      ∷ replied (is_response (3 ∷ []))
      ∷ replied (is_status (pos 0))
      ∷ replied (is_response (2 ∷ 1 ∷ 0 ∷ []))
      ∷ [];
}

abbrev synchronized : Worker forest archive
synchronized = (bootstrap_community forest archive 1 (pos 10) has_a_leaf).1

bootstrap_community-stores_example :
    (is_subscribed 2 synchronized.session ≡ true)
    × Has archive synchronized.store 2
    × ((leaves : List ℕ) × (u : Worker forest archive) × (v : Worker forest archive)
        × (until_subscribed archive 1 has_a_leaf ≡ (ok tt, u))
        × (request forest archive (send_leaves_of forest 2 (pos 10)) u ≡ (ok leaves, v))
        × All (λ leaf. Has archive synchronized.store (leaf + 1)) leaves)
unfolding bootstrap_community synchronize_full_tree synchronize_leaves synchronize_leaf add_all
    validate present_nodes subscribe_new ensure_author_available ensure_author_of ensure_author
    fetch_author add_node request on_wire send_subscribe subscribe_op subscribe_op_id
    subscribe_op_id_async send_leaves_of send_leaves_of_async send_ancestry send_ancestry_async
    send_announce send_announce_async handle_expected_status handle_expected_response await_status
    await_response write_message_async get_next_message_id await_reply write_message_with_id write
    send_to_waiting_channel succ_int
bootstrap_community-stores_example =
    bootstrap_community-stores archive-KeepsNodes 1 (pos 10) has_a_leaf synchronized tt refl

-- The peer is asked for the author with the hash 6, and answers with node 0, whose hash is 1.
abbrev misled : Worker forest archive
misled = record (worker []) { wakeups = replied (is_response (0 ∷ [])) ∷ [] }

abbrev after_answer : Worker forest archive
after_answer = (ensure_author forest archive 6 misled).1

ensure_author-ok_example :
    ((n : ℕ) × (archive.get_identity [] 6 ≡ ok (some n)) × (misled ≡ after_answer))
    ⊎ ((n : ℕ) × (v : Worker forest archive) × (request forest archive
            (send_query forest (6 ∷ []))
            misled
          ≡ (ok (n ∷ []), v))
        × (archive.validate_deep v.store n ≡ ok tt)
        × (archive.add_as n v.subscription_id v.store ≡ (ok tt, 0 ∷ [])))
unfolding ensure_author fetch_author add_author validate add_node request on_wire send_query
    send_query_async handle_expected_response await_response write_message_async get_next_message_id
    await_reply write_message_with_id write send_to_waiting_channel succ_int
ensure_author-ok_example = ensure_author-ok forest archive 6 misled after_answer refl
