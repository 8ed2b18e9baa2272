-- ===== src/Fmt/Consumed.antt =====
-- A scan never makes its input longer, and the scan of a word makes it shorter.
use sprout_go.Base.{
  ℕ, zero, suc, ◌≤◌, Bool, true, false, List, [], ◌∷◌, ◌==◌, arith, length, if◌then◌else◌, Text,
}
use sprout_go.Base.Exec.{ok, err, Exec, raise}
use sprout_go.Base.Errors.{scan_fault, bad_verb}
use sprout_go.Base.Shrinks.{Shrinks, Shrinks-idle, Shrinks-bind, Shrinks-then}
use sprout_go.Fmt.Space.{skip_space, not_eof, span, token, line_end}
use sprout_go.Fmt.Number.{
  accept_sign, some_digits, scan_digits, scan_int, scan_uint, is_digit, parse_int, parse_uint,
}
use sprout_go.Fmt.Format.{
  Value, int, uint, string, Kind, int_kind, uint_kind, string_kind, Directive, gap, literal, verb,
  scan_newline, scan_newlines, skip_blanks, scan_blanks, scan_gap, scan_literal, scan_string,
  scan_one, scan_directives, scanf, scan_line, directives,
}

-- A scan that never makes its input longer.
abbrev pub Reads : {A : Type 0} → Exec Text A → Type 0
Reads m = Shrinks length m

length-skip_space : (t : Text) → length (skip_space t).1 ≤ length t
unfolding skip_space
length-skip_space [] = omega arith
length-skip_space (c ∷ cs) = ground (arith, length-skip_space cs)

pub length-span : (p : ℕ → Bool) (t : Text) → length (span p t).1 ≤ length t
unfolding span
length-span p [] = omega arith
length-span p (c ∷ cs) = ground (arith, length-span p cs)

length-line_end : (t : Text) → length (line_end t).1 ≤ length t
unfolding line_end
length-line_end [] = omega arith
length-line_end (c ∷ cs) = ground (arith, length-line_end cs)

length-scan_newline : (t : Text) → length (scan_newline t).1 ≤ length t
unfolding scan_newline
length-scan_newline [] = omega arith
length-scan_newline (c ∷ cs) = ground (arith, length-scan_newline cs)

length-skip_blanks : (t : Text) → length (skip_blanks t) ≤ length t
unfolding skip_blanks
length-skip_blanks [] = omega arith
length-skip_blanks (c ∷ cs) = ground (arith, length-skip_blanks cs)

length-scan_blanks : (n : ℕ) (t : Text) → length (scan_blanks n t).1 ≤ length t
unfolding scan_blanks
length-scan_blanks (suc n) t = length-skip_blanks t
length-scan_blanks zero [] = omega arith
length-scan_blanks zero (c ∷ cs) = ground (arith, length-skip_blanks (c ∷ cs))

length-not_eof : (t : Text) → length (not_eof t).1 ≤ length t
unfolding not_eof
length-not_eof [] = omega arith
length-not_eof (c ∷ cs) = omega arith

length-accept_sign : (t : Text) → length (accept_sign t).1 ≤ length t
unfolding accept_sign
length-accept_sign [] = omega arith
length-accept_sign (c ∷ cs) = ground arith

length-scan_literal : (d : ℕ) (t : Text) → length (scan_literal d t).1 ≤ length t
unfolding scan_literal
length-scan_literal d [] = omega arith
length-scan_literal d (c ∷ cs) = ground arith

skip_space-Reads : Reads skip_space
skip_space-Reads = record { shrinks = length-skip_space }

not_eof-Reads : Reads not_eof
not_eof-Reads = record { shrinks = length-not_eof }

token-Reads : (p : ℕ → Bool) → Reads (token p)
unfolding token
token-Reads p = record { shrinks = length-span p }

line_end-Reads : Reads line_end
line_end-Reads = record { shrinks = length-line_end }

some_digits-Reads : (ds : Text) → Reads (some_digits ds)
some_digits-Reads [] = Shrinks-idle length _
some_digits-Reads (d ∷ ds) = Shrinks-idle length _

scan_digits-Reads : Reads scan_digits
unfolding scan_digits
scan_digits-Reads =
    Shrinks-then length not_eof-Reads (Shrinks-bind length (token-Reads is_digit) some_digits-Reads)

scan_int-Reads : Reads scan_int
unfolding scan_int
scan_int-Reads = Shrinks-then length skip_space-Reads (
    Shrinks-then length not_eof-Reads (
      Shrinks-bind length (record { shrinks = length-accept_sign })
        (λ negative.
          Shrinks-bind length scan_digits-Reads
            (λ ds. Shrinks-idle length (parse_int negative ds)))))

scan_uint-Reads : (bits : ℕ) → Reads (scan_uint bits)
unfolding scan_uint
scan_uint-Reads bits = Shrinks-then length skip_space-Reads (
    Shrinks-then length not_eof-Reads
      (Shrinks-bind length scan_digits-Reads (λ ds. Shrinks-idle length (parse_uint bits ds))))

scan_string-Reads : Reads scan_string
unfolding scan_string
scan_string-Reads =
    Shrinks-then length skip_space-Reads (Shrinks-then length not_eof-Reads (token-Reads _))

pub scan_line-Reads : Reads scan_line
unfolding scan_line
scan_line-Reads =
    Shrinks-bind length scan_string-Reads
      (λ s. Shrinks-then length line_end-Reads (Shrinks-idle length (ok s)))

-- A scan that is made if the verb fits.
Reads-verb :
    (b : Bool) (m : Exec Text Value)
    → Reads m
    → Reads (if b then m else raise (scan_fault bad_verb))
Reads-verb true m h = h
Reads-verb false m h = Shrinks-idle length (err (scan_fault bad_verb))

scan_one-Reads : (c : ℕ) (k : Kind) → Reads (scan_one c k)
unfolding scan_one
scan_one-Reads c int_kind =
    Reads-verb (c == b'd') _
      (Shrinks-bind length scan_int-Reads (λ z. Shrinks-idle length (ok (int z))))
scan_one-Reads c (uint_kind bits) =
    Reads-verb (c == b'd') _
      (Shrinks-bind length (scan_uint-Reads bits) (λ n. Shrinks-idle length (ok (uint n))))
scan_one-Reads c string_kind =
    Reads-verb (c == b's') _
      (Shrinks-bind length scan_string-Reads (λ s. Shrinks-idle length (ok (string s))))

scan_newlines-Reads : (n : ℕ) → Reads (scan_newlines n)
unfolding scan_newlines
scan_newlines-Reads zero = Shrinks-idle length _
scan_newlines-Reads (suc n) =
    Shrinks-then length (record { shrinks = length-scan_newline }) (scan_newlines-Reads n)

scan_gap-Reads : (n : ℕ) (trailing : Bool) → Reads (scan_gap n trailing)
unfolding scan_gap
scan_gap-Reads n true =
    Shrinks-then length (scan_newlines-Reads n) (record { shrinks = length-scan_blanks n })
scan_gap-Reads n false = scan_newlines-Reads n

scan_directives-Reads : (ds : List Directive) (ks : List Kind) → Reads (scan_directives ds ks)
unfolding scan_directives
scan_directives-Reads [] ks = Shrinks-idle length _
scan_directives-Reads (gap n trailing ∷ ds) ks =
    Shrinks-then length (scan_gap-Reads n trailing) (scan_directives-Reads ds ks)
scan_directives-Reads (literal c ∷ ds) ks =
    Shrinks-then length (record { shrinks = length-scan_literal c }) (scan_directives-Reads ds ks)
scan_directives-Reads (verb c ∷ ds) [] =
    Shrinks-then length skip_space-Reads (Shrinks-idle length _)
scan_directives-Reads (verb c ∷ ds) (k ∷ ks) = Shrinks-then length skip_space-Reads (
    Shrinks-bind length (scan_one-Reads c k) (λ v.
      Shrinks-bind length (scan_directives-Reads ds ks) (λ vs. Shrinks-idle length (ok (v ∷ vs)))))

pub scanf-Reads : (format : Text) (ks : List Kind) → Reads (scanf format ks)
unfolding scanf
scanf-Reads format ks = scan_directives-Reads (directives format) ks
