-- ===== src/Conn/RaceTests.antt =====
-- A message that waits for its reply, when the reply comes.
use sprout_go.Base.{ℕ, ◌≡◌, refl, [], ◌∷◌, arith, codes}
use sprout_go.Base.Int.{pos}
use sprout_go.Base.Reach.{Reach, here, next}
use sprout_go.Conn.Race.{
  idle, loaded, sending, Race, Delivers, loads, asks, delivers, requests, Step, new_race,
}
use sprout_go.Conn.Verbs.{subscribe}
use sprout_go.Conn.State.{Conn, new_conn, is_status, send_to_waiting_channel}
use sprout_go.Conn.Atomic.{at_rest, steps_of_operations}
use sprout_go.Conn.Blocked.{reader_can_block}
use sprout_go.Conn.Unblocked.{reader_goes_on}

abbrev asking : Race
asking = record {
  pending = (pos 0, 0) ∷ [];
  channels = 1;
  reader = idle;
  waits = (0, pos 0) ∷ [];
  timed_out = [];
}

reader_can_block_example :
    (t : Race) × Reach Step asking t × ((u : Race) → Reach Step t u → u.reader ≡ sending 0)
reader_can_block_example = (reader_can_block asking (pos 0) 0 refl).0 refl refl (omega arith)

reader_goes_on_example :
    (t : Race) × Reach Delivers (record asking { reader = loaded (pos 0) 0 }) t × (t.reader ≡ idle)
reader_goes_on_example =
    reader_goes_on (record asking { reader = loaded (pos 0) 0 })
      (next (next here (requests (asks new_race (pos 0) refl)))
        (delivers (loads asking (pos 0) 0 refl refl)))

-- The connection on which message 0 waits on the channel 0.
abbrev asking_conn : Conn ℕ
asking_conn = record (new_conn [] []) {
  next_message_id = pos 1;
  pending = (pos 0, 0) ∷ [];
  channels = 1;
}

steps_of_operations_example :
    Reach Delivers
      (at_rest asking_conn ((0, pos 0) ∷ []))
      (at_rest (send_to_waiting_channel (is_status (pos 0)) (pos 0) asking_conn).1 [])
steps_of_operations_example =
    (steps_of_operations asking_conn ((0, pos 0) ∷ []) (is_status (pos 0)) (pos 0) (pos 0) 0
        subscribe (codes " %d x\n") []).0
      refl refl
