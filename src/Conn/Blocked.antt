-- ===== src/Conn/Blocked.antt =====
-- How the goroutine that reads can come to wait forever.
use sprout_go.Base.{
  ℕ, suc, ◌<◌, ◌≡◌, ◌==◌, ◌∙◌, refl, none, some, List, [], ◌∷◌, arith, if◌then◌else◌,
}
use sprout_go.Base.Int.{ℤ, ==ℤ_iff}
use sprout_go.Conn.Pending.{lookup-store}
use sprout_go.Conn.State.{lookup, delete, store}
use sprout_go.Conn.Race.{
  idle, loaded, sending, Race, waited_for, leave, Delivers, loads, deletes, hands_over, asks,
  cannot_write, times_out, cancels, delivers, requests, Step, goes_smoothly, fails_to_write,
  times_out_or_cancels,
}
use sprout_go.Base.Reach.{Reach, here, next, Reach-invariant}

pub waited_for-leave :
    (c ch : ℕ) (ws : List (ℕ × ℤ))
    → waited_for c (leave ch ws) ≡ (if ch == c then none else waited_for c ws)
waited_for-leave c ch [] = ground arith
waited_for-leave c ch ((d, id) ∷ ws) = ground (arith, waited_for-leave c ch ws)

-- The goroutine that reads is at the send on a channel on which nothing waits.
pub record IsStuck (ch : ℕ) (s : Race) : Type 0 where
  pub at_send : s.reader ≡ sending ch
  pub unwaited : waited_for ch s.waits ≡ none
  pub was_made : ch < s.channels

leave-unwaited :
    (ch c : ℕ) (ws : List (ℕ × ℤ)) → waited_for ch ws ≡ none → waited_for ch (leave c ws) ≡ none
leave-unwaited ch c ws h = ground (arith, waited_for-leave ch c ws, h)

Delivers-IsStuck : {s t : Race} {ch : ℕ} → Delivers s t → IsStuck ch s → IsStuck ch t
Delivers-IsStuck (loads s id c r l) h = absurd (let k = h.at_send in cc)
Delivers-IsStuck (deletes s id c r) h = absurd (let k = h.at_send in cc)
Delivers-IsStuck (hands_over s c id r w) h = absurd (let k = h.at_send in let u = h.unwaited in cc)

Step-IsStuck : {s t : Race} {ch : ℕ} → Step s t → IsStuck ch s → IsStuck ch t
Step-IsStuck (goes_smoothly (delivers d)) h = Delivers-IsStuck d h
Step-IsStuck (goes_smoothly (requests (asks s id f))) h = record {
  at_send = h.at_send;
  unwaited = (let k = h.was_made in let u = h.unwaited in ground arith);
  was_made = (let k = h.was_made in omega (arith, k));
}
Step-IsStuck (fails_to_write (cannot_write s id f)) h = record {
  at_send = h.at_send;
  unwaited = h.unwaited;
  was_made = (let k = h.was_made in omega (arith, k));
}
Step-IsStuck (times_out_or_cancels (times_out s c id w)) h = record {
  at_send = h.at_send;
  unwaited = leave-unwaited _ c s.waits h.unwaited;
  was_made = h.was_made;
}
Step-IsStuck (times_out_or_cancels (cancels s before after id w)) h = record {
  at_send = h.at_send;
  unwaited = h.unwaited;
  was_made = h.was_made;
}

Reach-IsStuck :
    {s : Race} (ch : ℕ) → IsStuck ch s → (t : Race) → Reach Step s t → t.reader ≡ sending ch
Reach-IsStuck ch h t r = (Reach-invariant Step (IsStuck ch) (λ u v. Step-IsStuck) h r).at_send

-- The goroutine that reads is between two replies. If a wait for a message times out after the
-- channel of the message was loaded, then it waits at the send on that channel forever, whatever
-- comes after: nothing is read from the peer any more. So it does if the peer answers a message
-- that could not be written whole, on a new channel.
pub reader_can_block :
    (s : Race) (id : ℤ) (ch : ℕ)
    → s.reader ≡ idle
    → (lookup id s.pending ≡ some ch
        → waited_for ch s.waits ≡ some id
        → ch < s.channels
        → (t : Race) × Reach Step s t × ((u : Race) → Reach Step t u → u.reader ≡ sending ch))
      × (lookup id s.pending ≡ none
          → waited_for s.channels s.waits ≡ none
          → (t : Race) × Reach Step s t
            × ((u : Race) → Reach Step t u → u.reader ≡ sending s.channels))
reader_can_block s id ch r = (
  λ l w b.
      let has_loaded = record s { reader = loaded id ch } in
      let is_late = record has_loaded { waits = leave ch s.waits; timed_out = id ∷ s.timed_out } in
      (
        record is_late { reader = sending ch; pending = delete id s.pending },
        next
            (next (next here (goes_smoothly (delivers (loads s id ch r l))))
              (times_out_or_cancels (times_out has_loaded ch id w)))
            (goes_smoothly (delivers (deletes is_late id ch refl))),
        Reach-IsStuck ch (record {
          at_send = refl;
          unwaited = ground (arith, waited_for-leave ch ch s.waits);
          was_made = b;
        }),
      ),
  λ l w.
      let is_unwritten = record s {
        pending = store id s.channels s.pending;
        channels = suc s.channels;
      } in
      let has_loaded = record is_unwritten { reader = loaded id s.channels } in
      (
        record has_loaded { reader = sending s.channels; pending = delete id has_loaded.pending },
        next
            (next (next here (fails_to_write (cannot_write s id l))) (
              goes_smoothly (
                delivers (
                  loads is_unwritten id s.channels r
                    (lookup-store id id s.channels s.pending ∙ rw ((==ℤ_iff id id).1 refl))))))
            (goes_smoothly (delivers (deletes has_loaded id s.channels refl))),
        Reach-IsStuck s.channels (record { at_send = refl; unwaited = w; was_made = omega arith }),
      ),
)
