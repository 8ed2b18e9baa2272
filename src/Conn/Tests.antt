-- ===== src/Conn/Tests.antt =====
-- The connection at concrete inputs.
use sprout_go.Base.{ℕ, ◌≡◌, refl, ap, ◌++◌, [], ◌∷◌, arith, codes}
use sprout_go.Base.Int.{ℤ, pos, negsuc}
use sprout_go.Base.Exec.{Result, ok, err, panics}
use sprout_go.Base.Errors.{unsolicited}
use sprout_go.Fmt.Space.{is_space}
use sprout_go.Fmt.Format.{int, printf}
use sprout_go.Example.{forest, forest_laws}
use sprout_go.Conn.Verbs.{version, query, status, verb_of_word, text_eq}
use sprout_go.Conn.State.{
  is_status, Conn, new_conn, write_message_async, send_to_waiting_channel, cancel,
}
use sprout_go.Conn.Parse.{announce_message, version_message, no_message, parse_message}
use sprout_go.Conn.Send.{
  timed_out, op_format, handle_expected_status, send_version_async, timeout_error,
}
use sprout_go.Conn.Wire.{message_text}
use sprout_go.Conn.RoundTrip.{parse_message-message_text}
use sprout_go.Conn.Pending.{at_most_one_reply}
use sprout_go.Conn.Distinct.{AreDistinct, closed}
use sprout_go.Conn.Channels.{requests, replies, run, run-no_double_send}
use sprout_go.Conn.Replies.{status_request_lem}
use sprout_go.Conn.Faults.{parse_message-unknown, parse_message-negative_count}
use sprout_go.Conn.Texts.{status_error, unsolicited_error, texts-differ}
use sprout_go.Conn.Writes.{send_async-writes}

-- An announcement of nodes 0 and 2, with another message behind it.
parse_message-message_text_example :
    parse_message forest
      (message_text forest (announce_message (pos 7) (0 ∷ 2 ∷ [])) ++ codes "status 1 0\n")
    ≡ (ok (announce_message (pos 7) (0 ∷ 2 ∷ [])), codes "status 1 0\n")
parse_message-message_text_example =
    parse_message-message_text forest forest_laws (announce_message (pos 7) (0 ∷ 2 ∷ []))
      (codes "status 1 0\n") (omega arith)

parse_message-unknown_example :
    parse_message forest (codes "hello" ++ codes " 1 2\n") ≡ (ok no_message, codes " 1 2\n")
unfolding is_space verb_of_word text_eq
parse_message-unknown_example =
    parse_message-unknown forest (codes "hello") b' ' (codes "1 2\n")
      (refl, (refl, (refl, (refl, (refl, (refl, tt)))))) refl refl

parse_message-negative_count_example :
    parse_message forest (printf (op_format query) (int (pos 1) ∷ int (negsuc 0) ∷ []) ++ [])
    ≡ (panics, [])
parse_message-negative_count_example =
    (parse_message-negative_count forest (pos 1) 0 [] (omega arith) (omega arith)).0

-- A new connection whose transport works.
abbrev fresh : Conn ℕ
fresh = new_conn [] []

status_request_lem_example :
    (handle_expected_status
      (write_message_async version (op_format version) (int (pos 0) ∷ int (pos 0) ∷ []))
      timed_out
      fresh).0
    ≡ err timeout_error
status_request_lem_example =
    (status_request_lem version (op_format version) (int (pos 0) ∷ int (pos 0) ∷ []) 0 timed_out
      fresh (record { counter = refl; pending_below = tt; transport = refl })).0

run-no_double_send_example : AreDistinct (
    closed
      (run
        (requests status (codes "status %d\n") [] ∷ replies (is_status (pos 0)) (pos 0) ∷ [])
        (new_conn {N = ℕ} [] [])).delivered)
run-no_double_send_example =
    (run-no_double_send {N = ℕ} [] []
      (requests status (codes "status %d\n") [] ∷ replies (is_status (pos 0)) (pos 0) ∷ [])).0

at_most_one_reply_example :
    (send_to_waiting_channel (is_status (pos 0)) (pos 4) (cancel (pos 4) fresh).1).0
    ≡ err (unsolicited (pos 4))
at_most_one_reply_example =
    (at_most_one_reply (is_status (pos 1)) (is_status (pos 0)) (pos 4) fresh).1

send_async-writes_example :
    (send_version_async fresh).1.output
    ≡ message_text forest (version_message (pos 0) (pos 0) (pos 0))
send_async-writes_example =
    ap (λ (r : Result (ℕ × ℤ) × Conn ℕ). r.1.output)
      (send_async-writes forest fresh 1 (pos 2) (3 ∷ []) 4 1 (2 ∷ []) refl).0

texts-differ_example :
    (status_error (pos 1) ≡ status_error (pos 2) → pos 1 ≡ pos 2)
    × (unsolicited_error (pos 1) ≡ unsolicited_error (pos 2) → pos 1 ≡ pos 2)
texts-differ_example = texts-differ (pos 1) (pos 2) (omega arith) (omega arith)
