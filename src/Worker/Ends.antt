-- ===== src/Worker/Ends.antt =====
-- Run ends once the peer's input is used up: one round more than the input has characters is enough.
use sprout_go.Base.{
  ℕ, zero, suc, ◌<◌, ◌≤◌, ◌≡◌, ◌⊎◌, inl, inr, refl, Bool, true, false, Option, none, some, arith,
  length, Text, Eq, List, [], subst,
}
use sprout_go.Base.Exec.{Result, ok, err, panics, continue}
use sprout_go.Forest.{Forest}
use sprout_go.Conn.Parse.{Message, parse_message}
use sprout_go.Conn.Consumed.{IsProgress, parse_message-IsProgress}
use sprout_go.Conn.Dispatch.{dispatch, read_message, on_input}
use sprout_go.Worker.Store.{Archive}
use sprout_go.Worker.State.{Worker, host, with_input}
use sprout_go.Worker.Run.{handlers, after_read, run, Ending, failed, done, panicked}
use sprout_go.Worker.Keeps.{Always, subscribed-Always, unsubscribed-Always}
use sprout_go.Worker.KeepsDispatch.{dispatch-Keeps, read_message-Keeps}
use sprout_go.Base.Int.{ℤ}
use sprout_go.Conn.State.{Conn, Reply, lookup}
use sprout_go.Conn.Kept.{IsKeptByWrites, IsKeptByReplies}

-- At most so much input is left.
abbrev HasUnread : {N : Type 0} → ℕ → Conn N → Type 0
HasUnread n c = length c.input ≤ n

written-HasUnread : {N : Type 0} (n : ℕ) → IsKeptByWrites (HasUnread {N = N} n)
written-HasUnread n = record { written = λ c output faults h. h }

replied-HasUnread : {N : Type 0} (n : ℕ) → IsKeptByReplies (HasUnread {N = N} n)
replied-HasUnread n = record { delivered = λ c id ch r e h. h }

module _ (F : Forest) (A : Archive F) ⦃e : Eq F.Hash⦄ where
  open F use {Hash, Node}

  -- A round that ends Run, or has read something.
  abbrev IsRound : ℕ → Result (Unit {0}) × Worker F A → Type 0
  IsRound n p =
      ((ending : Ending) × (after_read F A p.0 ≡ some ending)) ⊎ (length p.1.conn.input < n)

  dispatch-IsRound :
      (n : ℕ) (w : Worker F A) (p : Result (Message Hash Node) × Text)
      → IsProgress F n p
      → IsRound n (continue (p.0, with_input F A p.1 w) (dispatch F (host F A) (handlers F A)))
  unfolding IsProgress
  dispatch-IsRound n w (ok m, t) h =
      let (q, u, v) =
        (dispatch-Keeps (HasUnread (length t)) (λ s. Unit) Always (written-HasUnread _)
            (replied-HasUnread _) subscribed-Always unsubscribed-Always m).preserves
          (with_input F A t w) (omega arith, tt, tt) in
      inr (omega (arith, h, q))
  dispatch-IsRound n w (err x, t) (inl h) = inr h
  dispatch-IsRound n w (err x, t) (inr (l, f, q)) = inl (failed x, rw q refl)
  dispatch-IsRound n w (panics, t) h = inl (panicked, refl)

  read_message-IsRound :
      (w : Worker F A) → IsRound (length w.conn.input) (read_message F (host F A) (handlers F A) w)
  unfolding read_message on_input
  read_message-IsRound w =
      dispatch-IsRound (length w.conn.input) w (parse_message F w.conn.input)
        (parse_message-IsProgress F w.conn.input)

  Ends : Option Ending × Worker F A → Type 0
  Ends p = (ending : Ending) × (p.0 ≡ some ending)

  -- The end of a round, of what it has read.
  next_round :
      (next : Option Ending) (stop : Bool) (w : Worker F A) (rest : Option Ending × Worker F A)
      → (next ≡ none → Ends rest)
      → Ends (elim next [
        | some ending ↦ (some ending, w)
        | none ↦ elim stop [ true ↦ (some done, w) | false ↦ rest ]
      ])
  unfolding Ends
  next_round (some ending) stop w rest h = (ending, refl)
  next_round none true w rest h = (done, refl)
  next_round none false w rest h = h refl

  not_both : (next : Option Ending) (ending : Ending) → next ≡ none → next ≡ some ending → ⊥
  not_both next ending h k = cc

  run-returns :
      (rounds : ℕ) (closed : ℕ → Bool) (w : Worker F A)
      → length w.conn.input < rounds
      → (ending : Ending) × ((run F A rounds closed w).0 ≡ some ending)
  unfolding run Ends
  run-returns zero closed w h = absurd (omega (arith, h))
  run-returns (suc rounds) closed w h =
      let p = read_message F (host F A) (handlers F A) w in
      next_round (after_read F A p.0) (closed rounds) p.1 (run F A rounds closed p.1) (λ go.
        elim (read_message-IsRound w) [
          | inl (ending, k) ↦ absurd (not_both (after_read F A p.0) ending go k)
          | inr l ↦ run-returns rounds closed p.1 (omega (arith, h, l))
        ])

  -- Nothing waits for a reply, and these replies were passed on.
  abbrev IsIdle : List (ℕ × Reply Node) → Conn Node → Type 0
  IsIdle d c = (c.pending ≡ []) × (c.delivered ≡ d)

  nothing_waits : (id : ℤ) (ch : ℕ) (p : List (ℤ × ℕ)) → p ≡ [] → lookup id p ≡ some ch → ⊥
  nothing_waits id ch p q h = nothing_found (subst (λ p. lookup id p ≡ some ch) q h)
    where
      nothing_found : lookup id [] ≡ some ch → ⊥
      nothing_found h = cc

  read_message-IsIdle :
      (d : List (ℕ × Reply Node)) (w : Worker F A)
      → IsIdle d w.conn
      → IsIdle d (read_message F (host F A) (handlers F A) w).1.conn
  read_message-IsIdle d w i =
      ((read_message-Keeps (IsIdle d) (λ s. Unit) Always
          (record { written = λ c output faults h. h })
          (record { delivered = λ c id ch r k h. absurd (nothing_waits id ch c.pending h.0 k) })
          subscribed-Always unsubscribed-Always (record { read = λ c rest h. h })).preserves
        w (i, tt, tt)).0

  Idles : List (ℕ × Reply Node) → Option Ending × Worker F A → Type 0
  Idles d p = IsIdle d p.1.conn

  idle_round :
      (d : List (ℕ × Reply Node)) (next : Option Ending) (stop : Bool) (w : Worker F A)
      (rest : Option Ending × Worker F A)
      → IsIdle d w.conn
      → Idles d rest
      → Idles d (elim next [
        | some ending ↦ (some ending, w)
        | none ↦ elim stop [ true ↦ (some done, w) | false ↦ rest ]
      ])
  unfolding Idles
  idle_round d (some ending) stop w rest i j = i
  idle_round d none true w rest i j = i
  idle_round d none false w rest i j = j

  run-IsIdle :
      (d : List (ℕ × Reply Node)) (rounds : ℕ) (closed : ℕ → Bool) (w : Worker F A)
      → IsIdle d w.conn
      → Idles d (run F A rounds closed w)
  unfolding run Idles
  run-IsIdle d zero closed w i = i
  run-IsIdle d (suc rounds) closed w i =
      let p = read_message F (host F A) (handlers F A) w in
      let j = read_message-IsIdle d w i in
      idle_round d (after_read F A p.0) (closed rounds) p.1 (run F A rounds closed p.1) j
        (run-IsIdle d rounds closed p.1 j)

  -- A worker that waits for no reply when Run starts, and makes no request while it runs: whatever
  -- the peer sends until it closes its end, and whatever the store and the transport answer, Run ends
  -- within one round more than the input has characters: the connection fails, Done is closed, or
  -- there is a run-time panic. On its way it sends on no channel, so that no send can block it, and
  -- at the end nothing waits for a reply.
  pub run-ends :
      (rounds : ℕ) (closed : ℕ → Bool) (w : Worker F A)
      → length w.conn.input < rounds
      → w.conn.pending ≡ []
      → let (ended, v) = run F A rounds closed w in
        ((ending : Ending) × (ended ≡ some ending))
        × (v.conn.delivered ≡ w.conn.delivered)
        × (v.conn.pending ≡ [])
  unfolding Ends Idles
  run-ends rounds closed w h p =
      let (waiting, sent) = run-IsIdle w.conn.delivered rounds closed w (p, refl) in
      (run-returns rounds closed w h, sent, waiting)
