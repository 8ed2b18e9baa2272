-- ===== src/Fmt/Format.antt =====
-- Formats: Fprintf, and the loops doScanf and advance of fmt/scan.go for Fscanf, and doScan for
-- Fscanln of one string.
use sprout_go.Base.{
  ℕ, zero, suc, ◌+◌, ◌≡◌, refl, Bool, true, false, List, [], ◌∷◌, ◌++◌, ◌==◌, if◌then◌else◌, Text,
  codes,
}
use sprout_go.Base.Int.{ℤ, pos}
use sprout_go.Base.Exec.{ok, err, Exec, pure, raise, ◌>>=◌, ◌>>◌}
use sprout_go.Base.Errors.{
  scan_fault, eof, expected_space, newline_mismatch, literal_mismatch, too_few_operands, bad_verb,
}
use sprout_go.Fmt.Space.{newline, is_space, skip_space, not_eof, token, line_end}
use sprout_go.Fmt.Number.{
  show_int, show_nat, parse_int, accept_sign, scan_digits, scan_int, scan_uint,
}

-- What is printed or scanned: a signed integer, an unsigned one, or a string.
pub data Value : Type 0 where
  int : ℤ → Value
  uint : ℕ → Value
  string : Text → Value

-- The type of the variable that a value is scanned into; an unsigned one has a number of bits.
pub data Kind : Type 0 where
  int_kind : Kind
  uint_kind : ℕ → Kind
  string_kind : Kind

-- `%!d`: Go's mark for a verb that does not fit the value.
abbrev pub bad_value : ℕ → Text
bad_value verb = codes "%!" ++ verb ∷ []

unfoldable pub print_value : ℕ → Value → Text
print_value verb (int z) = if verb == b'd' then show_int z else bad_value verb
print_value verb (uint n) = if verb == b'd' then show_nat n else bad_value verb
print_value verb (string s) = if verb == b's' then s else bad_value verb

-- Fprintf. The program's formats have as many verbs as there are values.
unfoldable pub printf : Text → List Value → Text
printf [] vs = []
printf (c ∷ []) vs = c ∷ []
printf (c ∷ d ∷ cs) [] = c ∷ printf (d ∷ cs) []
printf (c ∷ d ∷ cs) (v ∷ vs) =
    let verb = print_value d v ++ printf cs vs in
    let plain = c ∷ printf (d ∷ cs) (v ∷ vs) in if c == b'%' then verb else plain

-- A format cut up as `advance` reads it. A run of white space is a gap: how many newlines it has,
-- and whether blanks stand behind the last of them.
pub data Directive : Type 0 where
  gap : ℕ → Bool → Directive
  literal verb : ℕ → Directive

abbrev pub add_space : ℕ → List Directive → List Directive
add_space c (gap n trailing ∷ ds) = gap (if c == newline then n + 1 else n) trailing ∷ ds
add_space c ds = if c == newline then gap 1 false ∷ ds else gap 0 true ∷ ds

unfoldable pub directives : Text → List Directive
unfolding is_space
directives [] = []
directives (c ∷ []) = if is_space c then add_space c [] else literal c ∷ []
directives (c ∷ d ∷ cs) =
    let rest = directives (d ∷ cs) in
    let hole = verb d ∷ directives cs in
    if is_space c then add_space c rest else if c == b'%' then hole else literal c ∷ rest

-- A newline of the format: blanks, then a newline or the end of the input.
unfoldable pub scan_newline : Exec Text (Unit {0})
scan_newline [] = (ok tt, [])
scan_newline (c ∷ cs) =
    let rest = scan_newline cs in
    if c == newline
    then (ok tt, cs)
    else if is_space c
    then rest
    else (err (scan_fault newline_mismatch), cs)

unfoldable pub scan_newlines : ℕ → Exec Text (Unit {0})
unfolding scan_newline
scan_newlines zero = pure tt
scan_newlines (suc n) = scan_newline >> scan_newlines n

unfoldable pub skip_blanks : Text → Text
skip_blanks [] = []
skip_blanks (c ∷ cs) =
    let rest = skip_blanks cs in
    if c == newline then c ∷ cs else if is_space c then rest else c ∷ cs

-- Blanks at the end of a gap. With no newline before them at least one blank must stand there.
unfoldable pub scan_blanks : ℕ → Exec Text (Unit {0})
unfolding skip_blanks
scan_blanks (suc n) cs = (ok tt, skip_blanks cs)
scan_blanks zero [] = (ok tt, [])
scan_blanks zero (c ∷ cs) =
    if is_space c
    then if c == newline then (err (scan_fault newline_mismatch), cs) else (ok tt, skip_blanks cs)
    else (err (scan_fault expected_space), cs)

unfoldable pub scan_gap : ℕ → Bool → Exec Text (Unit {0})
scan_gap n true = scan_newlines n >> scan_blanks n
scan_gap n false = scan_newlines n

unfoldable pub scan_literal : ℕ → Exec Text (Unit {0})
scan_literal c [] = (err (scan_fault eof), [])
scan_literal c (d ∷ cs) =
    if c == d then (ok tt, cs) else (err (scan_fault literal_mismatch), d ∷ cs)

unfoldable pub scan_string : Exec Text Text
scan_string = do skip_space; not_eof; token (λ c. if is_space c then false else true)

-- scanOne
unfoldable pub scan_one : ℕ → Kind → Exec Text Value
scan_one c int_kind =
    if c == b'd' then (do z ← scan_int; pure (int z)) else raise (scan_fault bad_verb)
scan_one c (uint_kind bits) =
    if c == b'd' then (do n ← scan_uint bits; pure (uint n)) else raise (scan_fault bad_verb)
scan_one c string_kind =
    if c == b's' then (do s ← scan_string; pure (string s)) else raise (scan_fault bad_verb)

-- The loop of doScanf.
unfoldable pub scan_directives : List Directive → List Kind → Exec Text (List Value)
scan_directives [] ks = pure []
scan_directives (gap n trailing ∷ ds) ks = scan_gap n trailing >> scan_directives ds ks
scan_directives (literal c ∷ ds) ks = scan_literal c >> scan_directives ds ks
scan_directives (verb c ∷ ds) [] = skip_space >> raise (scan_fault too_few_operands)
scan_directives (verb c ∷ ds) (k ∷ ks) = do
  skip_space
  v ← scan_one c k
  vs ← scan_directives ds ks
  pure (v ∷ vs)

unfoldable pub scanf : Text → List Kind → Exec Text (List Value)
scanf format ks = scan_directives (directives format) ks

-- Fscanln(r, &s)
unfoldable pub scan_line : Exec Text Text
scan_line = do s ← scan_string; line_end; pure s

version_format :
    directives (codes " %d %d.%d\n")
    ≡ gap 0 true ∷ verb b'd' ∷ gap 0 true ∷ verb b'd' ∷ literal b'.' ∷ verb b'd' ∷ gap 1 false ∷ []
unfolding directives
version_format = refl

scan_version :
    scanf (codes " %d %d.%d\n") (int_kind ∷ int_kind ∷ int_kind ∷ []) (codes " 7 0.12\nlist")
    ≡ (ok (int (pos 7) ∷ int (pos 0) ∷ int (pos 12) ∷ []), codes "list")
unfolding scanf directives scan_directives scan_gap scan_newlines scan_blanks scan_literal
    skip_space scan_one scan_int not_eof accept_sign scan_digits parse_int is_space token
scan_version = refl
