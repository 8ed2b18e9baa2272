-- ===== src/Fmt/FormatBack.antt =====
-- What Fprintf prints by a format of blank-separated verbs is scanned back by Fscanf.
use sprout_go.Base.{
  ℕ, ◌^◌, ◌<◌, ◌≡◌, ◌∙◌, refl, true, false, List, [], ◌∷◌, ◌++◌, arith, ==_refl, if◌then◌else◌,
  Text,
}
use sprout_go.Base.Int.{FitsInt}
use sprout_go.Base.Exec.{ok, pure, continue}
use sprout_go.Fmt.Space.{
  newline, blank, is_space, StartsInk, IsWord, skip_space-ink, not_eof-ink, StartsInk-append,
  token-append, line_end,
}
use sprout_go.Fmt.Number.{is_digit}
use sprout_go.Fmt.NumberBack.{
  show_nat-StartsInk, show_int-StartsInk, scan_int-show_int, scan_uint-show_nat,
}
use sprout_go.Fmt.Format.{
  Value, int, uint, string, Kind, int_kind, uint_kind, string_kind, print_value, Directive, gap,
  literal, verb, scan_newline, scan_newlines, skip_blanks, scan_blanks, scan_gap, scan_literal,
  scan_string, scan_one, scan_directives, scan_line,
}
use sprout_go.Base.{All}
use sprout_go.Fmt.Space.{IsInk}

-- The verb by which a kind is printed and scanned.
abbrev pub verb_of : Kind → ℕ
verb_of int_kind = b'd'
verb_of (uint_kind bits) = b'd'
verb_of string_kind = b's'

-- A value that a variable of the kind can hold, and that is one token.
abbrev pub Fits : Kind → Value → Type 0
Fits int_kind (int z) = FitsInt z
Fits (uint_kind bits) (uint n) = n < 2 ^ bits
Fits string_kind (string s) = IsWord s
Fits _ _ = ⊥

-- A character at which the token of the kind ends.
abbrev pub Stops : Kind → ℕ → Type 0
Stops int_kind c = is_digit c ≡ false
Stops (uint_kind bits) c = is_digit c ≡ false
Stops string_kind c = is_space c ≡ true

ink_tests : (w : Text) → All IsInk w → All (λ c. (if is_space c then false else true) ≡ true) w
ink_tests [] a = tt
ink_tests (c ∷ w) a = (rw a.0, ink_tests w a.1)

pub scan_string-word :
    (w : Text) (c : ℕ) (s : Text)
    → IsWord w
    → is_space c ≡ true
    → scan_string (w ++ c ∷ s) ≡ (ok w, c ∷ s)
unfolding scan_string
scan_string-word w c s h e =
    rw
      (
        skip_space-ink (w ++ c ∷ s) (StartsInk-append w (c ∷ s) h.0),
        not_eof-ink (w ++ c ∷ s) (StartsInk-append w (c ∷ s) h.0),
      )
      (token-append _ w c s (ink_tests w h.1) (rw e))

print_value-StartsInk :
    (k : Kind) (v : Value) (s : Text) → Fits k v → StartsInk (print_value (verb_of k) v ++ s)
unfolding print_value
print_value-StartsInk int_kind (int z) s h = show_int-StartsInk z s
print_value-StartsInk (uint_kind bits) (uint n) s h = show_nat-StartsInk n s
print_value-StartsInk string_kind (string w) s h = StartsInk-append w s h.0
print_value-StartsInk _ _ s h = absurd h

scan_one-print_value :
    (k : Kind) (v : Value) (c : ℕ) (s : Text)
    → Fits k v
    → Stops k c
    → scan_one (verb_of k) k (print_value (verb_of k) v ++ c ∷ s) ≡ (ok v, c ∷ s)
unfolding scan_one print_value
scan_one-print_value int_kind (int z) c s h e = rw (scan_int-show_int z c s h e)
scan_one-print_value (uint_kind bits) (uint n) c s h e = rw (scan_uint-show_nat bits n c s h e)
scan_one-print_value string_kind (string w) c s h e = rw (scan_string-word w c s h e)
scan_one-print_value _ _ c s h e = absurd h

-- One verb of a format, at the text that was printed for it.
pub scan_directives-verb :
    (k : Kind) (v : Value) (ds : List Directive) (ks : List Kind) (c : ℕ) (s : Text)
    → Fits k v
    → Stops k c
    → scan_directives (verb (verb_of k) ∷ ds) (k ∷ ks) (print_value (verb_of k) v ++ c ∷ s)
      ≡ continue (scan_directives ds ks (c ∷ s)) (λ vs. pure (v ∷ vs))
unfolding scan_directives
scan_directives-verb k v ds ks c s h e = rw (
  skip_space-ink (print_value (verb_of k) v ++ c ∷ s) (print_value-StartsInk k v (c ∷ s) h),
  scan_one-print_value k v c s h e,
)

skip_blanks-ink : (s : Text) → StartsInk s → skip_blanks s ≡ s
unfolding skip_blanks
skip_blanks-ink [] h = absurd h
skip_blanks-ink (c ∷ s) h = rw h (ground arith)

-- One blank of a format.
pub scan_directives-blank :
    (ds : List Directive) (ks : List Kind) (s : Text)
    → StartsInk s
    → scan_directives (gap 0 true ∷ ds) ks (blank ∷ s) ≡ scan_directives ds ks s
unfolding scan_directives scan_gap scan_newlines scan_blanks is_space
scan_directives-blank ds ks s h = rw (skip_blanks-ink s h)

-- A blank and a verb of a format.
pub scan_directives-field :
    (k : Kind) (v : Value) (ds : List Directive) (ks : List Kind) (c : ℕ) (s : Text)
    → Fits k v
    → Stops k c
    → scan_directives
        (gap 0 true ∷ verb (verb_of k) ∷ ds)
        (k ∷ ks)
        (blank ∷ print_value (verb_of k) v ++ c ∷ s)
      ≡ continue (scan_directives ds ks (c ∷ s)) (λ vs. pure (v ∷ vs))
scan_directives-field k v ds ks c s h e =
    scan_directives-blank (verb (verb_of k) ∷ ds) (k ∷ ks) (print_value (verb_of k) v ++ c ∷ s)
      (print_value-StartsInk k v (c ∷ s) h)
    ∙ scan_directives-verb k v ds ks c s h e

-- One character of a format that stands for itself.
pub scan_directives-literal :
    (c : ℕ) (ds : List Directive) (ks : List Kind) (s : Text)
    → scan_directives (literal c ∷ ds) ks (c ∷ s) ≡ scan_directives ds ks s
unfolding scan_directives scan_literal
scan_directives-literal c ds ks s = rw ==_refl

-- The newline that ends a format.
pub scan_directives-newline :
    (s : Text) → scan_directives (gap 1 false ∷ []) [] (newline ∷ s) ≡ (ok [], s)
unfolding scan_directives scan_gap scan_newlines scan_newline
scan_directives-newline s = refl

-- A value with the kind of its variable.
abbrev pub Field : Type 0
Field = Kind × Value

abbrev pub AllFit : List Field → Type 0
AllFit [] = Unit {0}
AllFit (f ∷ fs) = Fits f.0 f.1 × AllFit fs

abbrev pub kinds : List Field → List Kind
kinds [] = []
kinds (f ∷ fs) = f.0 ∷ kinds fs

abbrev pub values : List Field → List Value
values [] = []
values (f ∷ fs) = f.1 ∷ values fs

-- A format of verbs with a blank before each, and a newline at the end.
abbrev pub blank_separated : List Field → List Directive
blank_separated [] = gap 1 false ∷ []
blank_separated (f ∷ fs) = gap 0 true ∷ verb (verb_of f.0) ∷ blank_separated fs

-- What is printed by it, before a rest.
abbrev pub print_fields : List Field → Text → Text
print_fields [] s = newline ∷ s
print_fields (f ∷ fs) s = blank ∷ print_value (verb_of f.0) f.1 ++ print_fields fs s

blank-Stops : (k : Kind) → Stops k blank
unfolding is_space
blank-Stops int_kind = refl
blank-Stops (uint_kind bits) = refl
blank-Stops string_kind = refl

newline-Stops : (k : Kind) → Stops k newline
unfolding is_space
newline-Stops int_kind = refl
newline-Stops (uint_kind bits) = refl
newline-Stops string_kind = refl

-- Fields that fit are scanned back, up to the end of their line.
pub scan_fields :
    (fs : List Field) (s : Text)
    → AllFit fs
    → scan_directives (blank_separated fs) (kinds fs) (print_fields fs s) ≡ (ok (values fs), s)
scan_fields [] s h = scan_directives-newline s
scan_fields ((k, v) ∷ []) s h = rw (
  scan_directives-field k v (gap 1 false ∷ []) [] newline s h.0 (newline-Stops k),
  scan_directives-newline s,
)
scan_fields ((k, v) ∷ f ∷ fs) s h = rw (
  scan_directives-field k v (blank_separated (f ∷ fs)) (kinds (f ∷ fs)) blank
      (print_value (verb_of f.0) f.1 ++ print_fields fs s) h.0 (blank-Stops k),
  scan_fields (f ∷ fs) s h.1,
)

-- A word on a line of its own is read by Fscanln.
pub scan_line-word : (w s : Text) → IsWord w → scan_line (w ++ newline ∷ s) ≡ (ok w, s)
unfolding scan_line line_end is_space
scan_line-word w s h = rw (scan_string-word w newline s h refl)
