-- ===== src/Worker/SystemTests.antt =====
-- A worker that announces a node, and makes one more request.
use sprout_go.Base.{ℕ, List, ◌≡◌, refl, [], ◌∷◌, arith, codes}
use sprout_go.Base.Int.{pos}
use sprout_go.Example.{forest, hash_eq}
use sprout_go.Conn.Verbs.{subscribe}
use sprout_go.Conn.State.{is_status, is_response, write_message_async}
use sprout_go.Conn.Send.{replied, handle_expected_status, handle_expected_response}
use sprout_go.Conn.Replies.{status_outcome, response_outcome}
use sprout_go.Base.Reach.{here, next}
use sprout_go.Worker.State.{Worker}
use sprout_go.Worker.Run.{new_worker}
use sprout_go.Worker.System.{handles}
use sprout_go.Worker.Ingest.{handle_new_node, announce_by_shape, announce_one, request}
use sprout_go.Worker.State.{on_wire}
use sprout_go.Conn.Send.{send_announce, send_announce_async, await_status}
use sprout_go.Conn.State.{
  get_next_message_id, await_reply, write_message_with_id, write, send_to_waiting_channel, cancel,
}
use sprout_go.Base.Int.{succ_int}
use sprout_go.Worker.Reached.{reached-request}
use sprout_go.Worker.Toy.{archive}

abbrev new : Worker forest archive
new =
    new_worker forest archive (codes "status 5 0\n") [] (0 ∷ []) 0 0
      (replied (is_response (1 ∷ [])) ∷ [])

abbrev has_announced : Worker forest archive
has_announced = (handle_new_node forest archive 0 new).1

-- Nobody else uses the store.
abbrev Nobody : List ℕ → List ℕ → Type 0
Nobody s t = s ≡ t

-- A worker that has announced node 0, and was answered with a response.
reached-request_example :
    let send = write_message_async {N = ℕ} subscribe (codes " %d x\n") [] in
    let expecting_status =
      handle_expected_status send (replied (is_status (pos 0))) has_announced.conn in
    let expecting_nodes =
      handle_expected_response send (replied (is_status (pos 0))) has_announced.conn in
    (expecting_status.0 ≡ status_outcome {N = ℕ} (replied (is_status (pos 0))))
    × (expecting_status.1.pending ≡ [])
    × (expecting_nodes.0 ≡ response_outcome {N = ℕ} (replied (is_status (pos 0))))
    × (expecting_nodes.1.pending ≡ [])
unfolding handle_new_node announce_by_shape announce_one request on_wire send_announce
    send_announce_async handle_expected_status await_status write_message_async get_next_message_id
    await_reply write_message_with_id write send_to_waiting_channel succ_int cancel
reached-request_example =
    reached-request (codes "status 5 0\n") [] (0 ∷ []) 0 0 (replied (is_response (1 ∷ [])) ∷ [])
      Nobody subscribe (codes " %d x\n") [] (replied (is_status (pos 0))) has_announced
      (omega arith) refl (next here (handles new 0))
