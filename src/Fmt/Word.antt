-- ===== src/Fmt/Word.antt =====
-- The scan of one word makes the input shorter, or fails with an error of package fmt.
use sprout_go.Base.{
  ℕ, suc, ◌≤◌, ◌<◌, ◌≡◌, refl, true, false, Bool-cases, inl, inr, [], ◌∷◌, ◌==◌, arith, length,
  if◌then◌else◌, Text, codes,
}
use sprout_go.Base.Exec.{Result, ok, err, panics, pure, continue}
use sprout_go.Base.Errors.{ScanFault, scan_fault}
use sprout_go.Fmt.Space.{newline, is_space, skip_space, skip_space-ink, not_eof, span, token}
use sprout_go.Fmt.Consumed.{length-span}
use sprout_go.Fmt.Format.{
  string, string_kind, directives, scan_string, scan_one, scan_directives, scanf,
}

-- What is left is shorter than a number, or the scan has failed.
unfoldable pub IsWordScan : {A : Type 0} → ℕ → Result A × Text → Type 0
IsWordScan n (ok a, t) = length t < n
IsWordScan n (err e, t) = (length t ≤ n) × (f : ScanFault) × (e ≡ scan_fault f)
IsWordScan n (panics, t) = ⊥

IsInkOrEnd : Text → Type 0
IsInkOrEnd [] = Unit
IsInkOrEnd (c ∷ cs) = is_space c ≡ false

IsSkip : ℕ → Result (Unit {0}) × Text → Type 0
IsSkip n (ok u, t) = (length t ≤ n) × IsInkOrEnd t
IsSkip n (err e, t) = (length t ≤ n) × (f : ScanFault) × (e ≡ scan_fault f)
IsSkip n (panics, t) = ⊥

IsSkip-suc : (n : ℕ) (p : Result (Unit {0}) × Text) → IsSkip n p → IsSkip (suc n) p
unfolding IsSkip
IsSkip-suc n (ok u, t) (h, i) = (omega (arith, h), i)
IsSkip-suc n (err e, t) (h, f, q) = (omega (arith, h), f, q)
IsSkip-suc n (panics, t) h = h

skip_space-IsSkip : (t : Text) → IsSkip (length t) (skip_space t)
unfolding IsSkip skip_space IsInkOrEnd
skip_space-IsSkip [] = (omega arith, tt)
skip_space-IsSkip (c ∷ cs) = elim (Bool-cases (c == newline)) [
  | inl n ↦ rw n (omega arith, _, refl)
  | inr n ↦ elim (Bool-cases (is_space c)) [
    | inl b ↦ rw (n, b) (IsSkip-suc (length cs) (skip_space cs) (skip_space-IsSkip cs))
    | inr b ↦ rw (n, b) (omega arith, b)
  ]
]

scan_string-IsWordScan :
    (n : ℕ) (t : Text) → length t ≤ n → IsInkOrEnd t → IsWordScan n (scan_string t)
unfolding IsWordScan IsInkOrEnd scan_string skip_space not_eof token span
scan_string-IsWordScan n [] l h = (l, _, refl)
scan_string-IsWordScan n (c ∷ cs) l h =
    rw (skip_space-ink (c ∷ cs) h, h)
      (omega (arith, l, length-span (λ d. if is_space d then false else true) cs))

IsWordScan-map :
    {A B : Type 0} (n : ℕ) (p : Result A × Text) (f : A → B)
    → IsWordScan n p
    → IsWordScan n (continue p (λ a. pure (f a)))
unfolding IsWordScan
IsWordScan-map n (ok a, t) f h = h
IsWordScan-map n (err e, t) f h = h
IsWordScan-map n (panics, t) f h = h

skip_then_string :
    (n : ℕ) (p : Result (Unit {0}) × Text)
    → IsSkip n p
    → IsWordScan n (
        continue p
          (λ _ t. continue (continue (scan_string t) (λ s. pure (string s))) (λ v. pure (v ∷ []))))
unfolding IsSkip IsWordScan
skip_then_string n (ok u, t) (l, h) =
    IsWordScan-map n (continue (scan_string t) (λ s. pure (string s))) (λ v. v ∷ [])
      (IsWordScan-map n (scan_string t) string (scan_string-IsWordScan n t l h))
skip_then_string n (err e, t) h = h
skip_then_string n (panics, t) h = h

pub scanf-IsWordScan : (t : Text) → IsWordScan (length t) (scanf (codes "%s") (string_kind ∷ []) t)
unfolding scanf directives scan_directives scan_one is_space
scanf-IsWordScan t = skip_then_string (length t) (skip_space t) (skip_space-IsSkip t)
