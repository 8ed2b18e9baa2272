-- ===== src/Worker/PropagatesTests.antt =====
-- The community of the example is announced to a worker whose store has its author.
use sprout_go.Base.{◌≡◌, refl, [], ◌∷◌, ◌++◌, arith}
use sprout_go.Base.Int.{pos}
use sprout_go.Base.Exec.{ok}
use sprout_go.Example.{forest, forest_laws, hash_eq}
use sprout_go.Conn.Parse.{status_message, announce_message}
use sprout_go.Conn.Wire.{message_text}
use sprout_go.Conn.Dispatch.{read_message}
use sprout_go.Conn.State.{write_message_with_id, write}
use sprout_go.Conn.Send.{send_status}
use sprout_go.Worker.State.{on_wire, host, with_input}
use sprout_go.Worker.Run.{handlers}
use sprout_go.Worker.Ingest.{ingest_node, handle_new_node}
use sprout_go.Worker.Announced.{is_wanted}
use sprout_go.Worker.Handlers.{on_subscribe, subscribe_new}
use sprout_go.Worker.Subscribed.{balance, handle_calls, subscribes}
use sprout_go.Worker.Followed.{handle_new_node-handle_calls}
use sprout_go.Worker.Propagates.{announced_node_is_stored}
use sprout_go.Worker.Toy.{archive, worker}

announced_node_is_stored_example :
    let announced = (handle_new_node forest archive 1 (worker [])).1.conn.output in
    let (result, v) =
      read_message forest
        (host forest archive)
        (handlers forest archive)
        (with_input forest archive announced (worker (0 ∷ []))) in
    (result ≡ ok tt)
    × (v.conn.output ≡ message_text forest (status_message (pos 0) (pos 0)))
    × (v.ingesting ≡ 1 ∷ [])
    × ((ingest_node forest archive 1 v).1.store ≡ 1 ∷ 0 ∷ [])
unfolding is_wanted
announced_node_is_stored_example =
    announced_node_is_stored forest archive forest_laws 1 (worker []) (worker (0 ∷ []))
      (omega arith) refl refl refl refl refl (0, refl) refl

-- The peer subscribes to the community with the hash 2, in which node 3 is a reply.
handle_new_node-handle_calls_example :
    let v = handle_calls forest archive (subscribes (pos 1) 2 ∷ []) (worker []) in
    (handle_new_node forest archive 3 v).1.conn.output
    ≡ v.conn.output ++ message_text forest (announce_message v.conn.next_message_id (3 ∷ []))
unfolding balance handle_calls on_subscribe subscribe_new on_wire send_status write_message_with_id
    write
handle_new_node-handle_calls_example =
    handle_new_node-handle_calls forest archive 3 1 2 (subscribes (pos 1) 2 ∷ []) (worker []) refl
      refl refl
