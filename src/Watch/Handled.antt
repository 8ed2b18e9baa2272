-- ===== src/Watch/Handled.antt =====
-- Which files the handler of Watch is called for.
use sprout_go.Base.{
  ◌≡◌, ◌∙◌, refl, sym, ap, true, ◌||◌, Bool-cases, inl, inr, List, [], ◌∷◌, ◌++◌, All,
  if◌then◌else◌,
}
use sprout_go.Watch.{Event, Received, event, error, events_closed, errors_closed, on_event, watch}

module _ {N : Type 0} where
  -- The names of the files that were created or written.
  abbrev pub changed : List (Received N) → List N
  changed [] = []
  changed (event e ∷ later) =
      let rest = changed later in if e.creates || e.writes then e.name ∷ rest else rest
  changed (_ ∷ later) = changed later

  -- Neither channel is closed.
  abbrev pub IsOpen : Received N → Type 0
  IsOpen (event e) = Unit
  IsOpen error = Unit
  IsOpen _ = ⊥

  abbrev pub IsClosing : Received N → Type 0
  IsClosing events_closed = Unit
  IsClosing errors_closed = Unit
  IsClosing _ = ⊥

  module _ {S : Type 0} (handler : N → S → S) where
    -- The handler called for each name in turn.
    abbrev pub handle_all : List N → S → S
    handle_all [] s = s
    handle_all (n ∷ ns) s = handle_all ns (handler n s)

    on_event-handle_all :
        (e : Event N) (ns : List N) (s : S)
        → handle_all (if e.creates || e.writes then e.name ∷ ns else ns) s
          ≡ handle_all ns (on_event handler e s)
    unfolding on_event
    on_event-handle_all e ns s = elim (Bool-cases e.creates) [
      | inl c ↦ rw c refl
      | inr c ↦ elim (Bool-cases e.writes) [ inl w ↦ rw (c, w) refl | inr w ↦ rw (c, w) refl ]
    ]

    watch-open :
        (rs later : List (Received N)) (s : S)
        → All IsOpen rs
        → watch handler (rs ++ later) s ≡ watch handler later (handle_all (changed rs) s)
    unfolding watch
    watch-open [] later s a = refl
    watch-open (event e ∷ rs) later s (u, a) =
        watch-open rs later (on_event handler e s) a
        ∙ ap (watch handler later) (sym (on_event-handle_all e (changed rs) s))
    watch-open (error ∷ rs) later s (u, a) = watch-open rs later s a
    watch-open (events_closed ∷ rs) later s (u, a) = absurd u
    watch-open (errors_closed ∷ rs) later s (u, a) = absurd u

    -- Until one of its channels is closed, Watch calls its handler once for each event that creates
    -- or writes a file, in the order of the events; errors change nothing. What is received after
    -- that is not looked at.
    pub watch-closes :
        (rs later : List (Received N)) (r : Received N) (s : S)
        → All IsOpen rs
        → IsClosing r
        → watch handler (rs ++ r ∷ later) s ≡ (true, handle_all (changed rs) s)
    unfolding watch
    watch-closes rs later (event e) s a c = absurd c
    watch-closes rs later error s a c = absurd c
    watch-closes rs later events_closed s a c = watch-open rs (events_closed ∷ later) s a
    watch-closes rs later errors_closed s a c = watch-open rs (errors_closed ∷ later) s a
