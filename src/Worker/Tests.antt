-- ===== src/Worker/Tests.antt =====
-- The worker at concrete inputs.
use sprout_go.Base.{◌≡◌, refl, true, none, [], ◌∷◌, arith, ℕ, some, codes, false}
use sprout_go.Base.Int.{pos, negsuc}
use sprout_go.Base.Exec.{ok, panics}
use sprout_go.Example.{forest, hash_eq}
use sprout_go.Session.{is_subscribed}
use sprout_go.Conn.Send.{status_ok, error_unknown_node}
use sprout_go.Conn.State.{Conn}
use sprout_go.Conn.Dispatch.{Handlers}
use sprout_go.Worker.State.{Worker}
use sprout_go.Worker.Run.{new_worker, Ending, run}
use sprout_go.Worker.Handlers.{on_leaves_of}
use sprout_go.Worker.Announce.{on_announce}
use sprout_go.Worker.Ingest.{
  ingest_node, ensure_author_available, ensure_author_of, ensure_author, fetch_author, add_node,
}
use sprout_go.Worker.Answers.{on_leaves_of-answers}
use sprout_go.Worker.Announced.{reported, ingesting_wanted, on_announce-select, on_announce-unknown}
use sprout_go.Worker.Subscribed.{
  subscribes, unsubscribes, balance, handle_calls, is_subscribed-handle_calls,
}
use sprout_go.Worker.Ingested.{until_valid, ingest_node-ok}
use sprout_go.Worker.Ends.{run-ends}
use sprout_go.Worker.Toy.{archive, broken, worker, find}

abbrev broken_worker : Worker forest broken
broken_worker = new_worker forest broken [] [] (0 ∷ []) 0 0 []

on_leaves_of-answers_example :
    on_leaves_of forest archive (pos 4) 1 (negsuc 0) (worker (2 ∷ 0 ∷ []))
    ≡ (panics, worker (2 ∷ 0 ∷ []))
on_leaves_of-answers_example =
    (on_leaves_of-answers forest archive (pos 4) 1 (find (2 ∷ 0 ∷ [])) (3 ∷ 1 ∷ [])
        (worker (2 ∷ 0 ∷ [])) refl (refl, (refl, tt)) refl).1
      0

-- Node 0 is in the store, node 7 has expired, node 2 is in no subscribed community, and node 1 is a
-- community.
on_announce-select_example :
    on_announce forest archive (pos 4) (0 ∷ 7 ∷ 2 ∷ 1 ∷ []) (worker (0 ∷ [])) ≡ (
      ok tt,
      reported forest archive
          (pos 4)
          status_ok
          (ingesting_wanted forest archive (0 ∷ 7 ∷ 2 ∷ 1 ∷ []) (worker (0 ∷ []))),
    )
on_announce-select_example =
    on_announce-select forest archive (pos 4) (0 ∷ 7 ∷ 2 ∷ 1 ∷ []) (worker (0 ∷ []))
      (
        ((λ e. cc), (λ e. cc), (λ e. cc)),
        (
          ((λ e. cc), (λ e. cc), (λ e. cc)),
          (((λ e. cc), (λ e. cc), (λ e. cc)), (((λ e. cc), (λ e. cc), (λ e. cc)), tt)),
        ),
      )
      refl

on_announce-unknown_example : on_announce forest archive (pos 4) (1 ∷ 9 ∷ 0 ∷ []) (worker []) ≡ (
  ok tt,
  reported forest archive
      (pos 4)
      error_unknown_node
      (ingesting_wanted forest archive (1 ∷ []) (worker [])),
)
on_announce-unknown_example =
    on_announce-unknown forest archive (pos 4) (1 ∷ []) (0 ∷ []) 9 (worker [])
      (((λ e. cc), (λ e. cc), (λ e. cc)), tt) refl refl refl refl

-- The community is subscribed twice and unsubscribed once.
is_subscribed-handle_calls_example :
    is_subscribed 2
      (handle_calls forest archive
        (unsubscribes (pos 3) 2 ∷ subscribes (pos 2) 2 ∷ subscribes (pos 1) 2 ∷ [])
        (worker [])).session
    ≡ true
unfolding balance
is_subscribed-handle_calls_example =
    is_subscribed-handle_calls forest archive 2
      (unsubscribes (pos 3) 2 ∷ subscribes (pos 2) 2 ∷ subscribes (pos 1) 2 ∷ []) (worker []) refl

ingest_node-ok_example :
    (v : Worker forest archive) × (until_valid forest archive 2 (worker (0 ∷ [])) ≡ (ok tt, v))
    × (archive.validate_deep v.store 2 ≡ ok tt)
    × (archive.add_as 2 v.subscription_id v.store ≡ (ok tt, 2 ∷ 0 ∷ []))
unfolding ingest_node ensure_author_available ensure_author_of ensure_author fetch_author add_node
ingest_node-ok_example =
    ingest_node-ok forest archive 2 (worker (0 ∷ [])) (worker (2 ∷ 0 ∷ [])) refl

abbrev no_handlers : Handlers ℕ ℕ (Conn ℕ)
no_handlers = record {
  on_version = none;
  on_list = none;
  on_query = none;
  on_ancestry = none;
  on_leaves_of = none;
  on_subscribe = none;
  on_unsubscribe = none;
  on_announce = none;
}

-- The peer has sent a status that answers nothing, and closed its end.
run-ends_example :
    let (ended, v) =
      run forest archive 12
        (λ round. false)
        (new_worker forest archive (codes "status 5 0\n") [] [] 0 0 []) in
    ((ending : Ending) × (ended ≡ some ending)) × (v.conn.delivered ≡ []) × (v.conn.pending ≡ [])
run-ends_example =
    run-ends forest archive 12 (λ round. false)
      (new_worker forest archive (codes "status 5 0\n") [] [] 0 0 []) (omega arith) refl
