-- ===== src/Worker/DialogueTests.antt =====
-- A peer that sends a version, a query and a subscription to a worker.
use sprout_go.Base.{ℕ, ◌+◌, ◌≡◌, ◌==◌, refl, none, Bool, false, List, [], ◌∷◌, ◌++◌, arith}
use sprout_go.Base.Int.{pos, negsuc}
use sprout_go.Example.{forest, hash_eq}
use sprout_go.Conn.Parse.{
  Message, version_message, list_message, query_message, response_message, subscribe_message,
  status_message, leaves_of_message,
}
use sprout_go.Conn.Wire.{message_text}
use sprout_go.Conn.Dispatch.{Handlers, read_message}
use sprout_go.Conn.State.{Conn, new_conn, is_response}
use sprout_go.Conn.Send.{send_list_async}
use sprout_go.Conn.Writes.{send_async-writes}
use sprout_go.Conn.Taken.{alone, a_response}
use sprout_go.Worker.Answered.{request_is_answered}
use sprout_go.Conn.Delivery.{messages_text}
use sprout_go.Example.{forest_laws}
use sprout_go.Worker.State.{Worker, host, with_input}
use sprout_go.Worker.Run.{handlers, run}
use sprout_go.Worker.Answers.{nodes_of}
use sprout_go.Worker.Protocol.{View, IsAnswering, reply_to}
use sprout_go.Worker.Served.{HasReplied}
use sprout_go.Worker.Dialogue.{Owes, read_message-replies, run-serves}
use sprout_go.Worker.Toy.{archive, worker, find, hashes}

-- What is in a store of the example.
abbrev contents : List ℕ → View forest
contents ns = record {
  look = find ns;
  listed = λ t q. ns;
  below = λ h. hashes ns;
  has_expired = λ n. n == 7;
}

archive-IsAnswering : (ns : List ℕ) → IsAnswering archive (contents ns) ns 0
archive-IsAnswering ns = record {
  get_look = λ h. refl;
  recent_listed = λ t q. refl;
  descendants_below = λ h. refl;
  expired_now = λ n. refl;
}

-- The last leaf of a store with two nodes.
read_message-replies_example :
    HasReplied (worker (2 ∷ 0 ∷ [])) (response_message (pos 4) (2 ∷ [])) (
      read_message forest (host forest archive) (handlers forest archive) (
        with_input forest archive
          (message_text forest (leaves_of_message (pos 4) 1 (pos 1)) ++ [])
          (worker (2 ∷ 0 ∷ []))))
unfolding reply_to nodes_of
read_message-replies_example =
    read_message-replies forest_laws
      (with_input forest archive (message_text forest (leaves_of_message (pos 4) 1 (pos 1)) ++ [])
        (worker (2 ∷ 0 ∷ [])))
      (contents (2 ∷ 0 ∷ [])) (leaves_of_message (pos 4) 1 (pos 1))
      (response_message (pos 4) (2 ∷ [])) [] (archive-IsAnswering (2 ∷ 0 ∷ [])) refl
      (omega arith, omega arith) refl refl

abbrev requests : List (Message ℕ ℕ)
requests =
    version_message (pos 1) (negsuc 0) (pos 2)
    ∷ query_message (pos 2) (3 ∷ 9 ∷ [])
    ∷ subscribe_message (pos 3) 2
    ∷ []

abbrev replies : List (Message ℕ ℕ)
replies =
    status_message (pos 1) (pos 2)
    ∷ response_message (pos 2) (2 ∷ [])
    ∷ status_message (pos 3) (pos 0)
    ∷ []

abbrev asked : Worker forest archive
asked = with_input forest archive (messages_text forest requests ++ []) (worker (2 ∷ []))

run-serves_example :
    (v : Worker forest archive) × (v.conn
      ≡ record (worker (2 ∷ [])).conn { output = messages_text forest replies })
    × ((rounds : ℕ) (closed : ℕ → Bool)
        → ((i : ℕ) → closed i ≡ false)
        → run forest archive (3 + rounds) closed asked ≡ run forest archive rounds closed v)
unfolding Owes reply_to nodes_of
run-serves_example =
    run-serves forest_laws requests replies (contents (2 ∷ [])) asked []
      (archive-IsAnswering (2 ∷ [])) refl
      ((omega arith, omega arith, omega arith), ((omega arith, omega arith), (omega arith, tt)))
      refl (refl, (refl, (refl, tt)))

abbrev no_handlers : Handlers ℕ ℕ (Conn ℕ)
no_handlers = record {
  on_version = none;
  on_list = none;
  on_query = none;
  on_ancestry = none;
  on_leaves_of = none;
  on_subscribe = none;
  on_unsubscribe = none;
  on_announce = none;
}

-- The first request of a new connection lists the nodes of the other end.
request_is_answered_example :
    let asked = (send_list_async {N = ℕ} 1 (pos 2) (new_conn [] [])).1 in
    let answered =
      (read_message forest
        (host forest archive)
        (handlers forest archive)
        (with_input forest archive asked.output (worker (2 ∷ [])))).1 in
    (read_message forest alone no_handlers
      (record asked { input = answered.conn.output })).1.delivered
    ≡ (0, is_response (2 ∷ [])) ∷ []
unfolding reply_to
request_is_answered_example =
    request_is_answered forest forest_laws archive no_handlers (send_list_async 1 (pos 2))
      (new_conn [] []) (worker (2 ∷ [])) (contents (2 ∷ [])) (list_message (pos 0) 1 (pos 2))
      (response_message (pos 0) (2 ∷ [])) (is_response (2 ∷ []))
      (send_async-writes forest (new_conn [] []) 1 (pos 2) [] 0 0 [] refl).1 refl
      (archive-IsAnswering (2 ∷ [])) refl refl (omega arith, omega arith, omega arith)
      (omega arith, omega arith) refl (a_response (2 ∷ []))
