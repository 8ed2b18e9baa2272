-- ===== src/Supervisor/Stops.antt =====
-- When the loop of a supervisor returns, and how often it has waited.
use sprout_go.Base.{
  ℕ, suc, ◌+◌, ◌≡◌, ◌∙◌, refl, ap, true, false, List, [], ◌∷◌, ◌++◌, length, All, arith,
}
use sprout_go.Supervisor.{
  Attempt, dial_fails, worker_fails, runs, Supervisor, new_supervisor, before_dial, launch,
  supervise,
}

-- Not a worker that has run until `done` was closed.
abbrev pub GoesOn : Attempt → Type 0
GoesOn (runs closed) = closed ≡ false
GoesOn _ = Unit

-- The attempts at which a worker was started.
abbrev pub launched : List Attempt → ℕ
launched [] = 0
launched (runs closed ∷ later) = suc (launched later)
launched (_ ∷ later) = launched later

-- A supervisor that has made an attempt.
abbrev pub restarting : (sleeps dials workers : ℕ) → Supervisor
restarting sleeps dials workers = record {
  first_attempt = false;
  sleeps = sleeps;
  dials = dials;
  workers = workers;
}

restarting_eq : {s t d e w v : ℕ} → s ≡ t → d ≡ e → w ≡ v → restarting s d w ≡ restarting t e v
restarting_eq p q r = rw (p, q, r)

supervise-restarting :
    (tries rest : List Attempt) (s d w : ℕ)
    → All GoesOn tries
    → supervise (tries ++ rest) (restarting s d w)
      ≡ supervise rest (restarting (length tries + s) (length tries + d) (launched tries + w))
unfolding supervise before_dial
supervise-restarting [] rest s d w a =
    ap (supervise rest) (restarting_eq (omega arith) (omega arith) (omega arith))
supervise-restarting (dial_fails ∷ tries) rest s d w (u, a) =
    supervise-restarting tries rest (suc s) (suc d) w a
    ∙ ap (supervise rest) (restarting_eq (omega arith) (omega arith) (omega arith))
supervise-restarting (worker_fails ∷ tries) rest s d w (u, a) =
    supervise-restarting tries rest (suc s) (suc d) w a
    ∙ ap (supervise rest) (restarting_eq (omega arith) (omega arith) (omega arith))
supervise-restarting (runs true ∷ tries) rest s d w (u, a) = cc
supervise-restarting (runs false ∷ tries) rest s d w (u, a) =
    supervise-restarting tries rest (suc s) (suc d) (suc w) a
    ∙ ap (supervise rest) (restarting_eq (omega arith) (omega arith) (omega arith))

-- The first round does not wait.
supervise-first :
    (t : Attempt) (later : List Attempt)
    → GoesOn t
    → supervise (t ∷ later) new_supervisor ≡ supervise later (restarting 0 1 (launched (t ∷ [])))
unfolding supervise before_dial
supervise-first dial_fails later h = refl
supervise-first worker_fails later h = refl
supervise-first (runs true) later h = cc
supervise-first (runs false) later h = refl

launched-cons :
    (t : Attempt) (tries : List Attempt) → launched tries + launched (t ∷ []) ≡ launched (t ∷ tries)
launched-cons dial_fails tries = omega arith
launched-cons worker_fails tries = omega arith
launched-cons (runs closed) tries = omega arith

supervise-stop :
    (tries rest : List Attempt)
    → All GoesOn tries
    → supervise (tries ++ runs true ∷ rest) new_supervisor
      ≡ (true, restarting (length tries) (length tries + 1) (launched tries + 1))
unfolding supervise before_dial
supervise-stop [] rest a = refl
supervise-stop (t ∷ tries) rest (h, a) =
    supervise-first t (tries ++ runs true ∷ rest) h
    ∙ supervise-restarting tries (runs true ∷ rest) 0 1 (launched (t ∷ [])) a
    ∙ ap (λ s. (true, s))
        (restarting_eq (omega arith) (omega arith) (omega (arith, launched-cons t tries)))

supervise-GoesOn :
    (tries : List Attempt) (s : Supervisor) → All GoesOn tries → (supervise tries s).0 ≡ false
unfolding supervise
supervise-GoesOn [] s a = refl
supervise-GoesOn (dial_fails ∷ tries) s (h, a) = supervise-GoesOn tries (before_dial s) a
supervise-GoesOn (worker_fails ∷ tries) s (h, a) = supervise-GoesOn tries (before_dial s) a
supervise-GoesOn (runs true ∷ tries) s (h, a) = cc
supervise-GoesOn (runs false ∷ tries) s (h, a) = supervise-GoesOn tries (launch (before_dial s)) a

-- The loop returns after the first worker that has run until `done` was closed, and has then waited
-- once for each attempt before it. As long as there is none it does not return, also if every dial
-- fails.
pub supervise-stops :
    (tries rest : List Attempt)
    → All GoesOn tries
    → (supervise (tries ++ runs true ∷ rest) new_supervisor
        ≡ (true, restarting (length tries) (length tries + 1) (launched tries + 1)))
      × ((supervise tries new_supervisor).0 ≡ false)
supervise-stops tries rest a =
    (supervise-stop tries rest a, supervise-GoesOn tries new_supervisor a)
