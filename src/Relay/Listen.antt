-- ===== src/Relay/Listen.antt =====
-- cmd/relay/main.go: the loop that accepts connections and starts a worker for each. What is logged
-- is left out, and so is what a worker does, which is its own part.
use mathlib.Core.List.{append-nil}
use sprout_go.Base.{
  ℕ, suc, ◌+◌, ◌≡◌, ◌∙◌, sym, ap, zero, true, false, Bool, List, [], ◌∷◌, ◌++◌, All, arith,
}

-- How a round of the loop goes: Accept fails, NewWorker fails, or a worker is started; then `closed`
-- says whether the channel `done` is closed.
pub data Arrival : Type 0 where
  not_accepted not_launched : Arrival
  launches : (closed : Bool) → Arrival

pub record Listener : Type 0 where
  pub worker_count : ℕ
  -- the numbers of the workers that were started, as their loggers have them, the latest first
  pub running : List ℕ

abbrev pub new_listener : Listener
new_listener = record { worker_count = 0; running = [] }

abbrev pub start_worker : Listener → Listener
start_worker s = record { worker_count = suc s.worker_count; running = s.worker_count ∷ s.running }

-- The loop, over what arrives, and whether it has returned.
unfoldable pub listen : List Arrival → Listener → Bool × Listener
listen [] s = (false, s)
listen (not_accepted ∷ later) s = listen later s
listen (not_launched ∷ later) s = listen later s
listen (launches true ∷ later) s = (true, start_worker s)
listen (launches false ∷ later) s = listen later (start_worker s)

-- Not a worker that was started when `done` was closed.
abbrev pub GoesOn : Arrival → Type 0
GoesOn (launches closed) = closed ≡ false
GoesOn _ = Unit

-- The arrivals for which a worker is started.
abbrev pub launched : List Arrival → ℕ
launched [] = 0
launched (launches closed ∷ later) = suc (launched later)
launched (_ ∷ later) = launched later

-- The numbers below a number, the largest first.
abbrev pub below : ℕ → List ℕ
below zero = []
below (suc n) = n ∷ below n

abbrev pub listening : ℕ → Listener
listening n = record { worker_count = n; running = below n }

listen-listening :
    (arrivals rest : List Arrival) (n : ℕ)
    → All GoesOn arrivals
    → listen (arrivals ++ rest) (listening n) ≡ listen rest (listening (launched arrivals + n))
unfolding listen
listen-listening [] rest n a = ap (λ k. listen rest (listening k)) (omega arith)
listen-listening (not_accepted ∷ arrivals) rest n (u, a) = listen-listening arrivals rest n a
listen-listening (not_launched ∷ arrivals) rest n (u, a) = listen-listening arrivals rest n a
listen-listening (launches true ∷ arrivals) rest n (u, a) = absurd cc
listen-listening (launches false ∷ arrivals) rest n (u, a) =
    listen-listening arrivals rest (suc n) a ∙ ap (λ k. listen rest (listening k)) (omega arith)

-- The loop returns right after the first worker that it starts when `done` is closed, and not
-- before, also if every Accept fails. One worker is started for each accepted connection whose
-- worker can be made, and their numbers count from 0.
listen-numbers :
    (arrivals rest : List Arrival)
    → All GoesOn arrivals
    → (listen arrivals new_listener ≡ (false, listening (launched arrivals)))
      × (listen (arrivals ++ launches true ∷ rest) new_listener
          ≡ (true, listening (suc (launched arrivals))))
unfolding listen
listen-numbers arrivals rest a =
    let e : launched arrivals + 0 ≡ launched arrivals = omega arith in
    (
      ap (λ xs. listen xs new_listener) (sym (append-nil arrivals))
          ∙ listen-listening arrivals [] 0 a
          ∙ ap (λ k. (false, listening k)) e,
      listen-listening arrivals (launches true ∷ rest) 0 a ∙ ap (λ k. (true, listening (suc k))) e,
    )
