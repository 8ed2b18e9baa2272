-- ===== src/Fmt/Number.antt =====
-- Decimal numbers: `%d` printed, and scanned as scanInt and scanUint of fmt/scan.go do, with the
-- bounds of strconv.ParseInt and ParseUint.
use sprout_go.Base.{
  ℕ, zero, suc, ◌+◌, ◌-◌, ◌*◌, ◌/◌, ◌%◌, ◌^◌, ◌≡◌, refl, Bool, true, false, ◌&&◌, [], ◌∷◌, ltb, leb,
  ◌==◌, if◌then◌else◌, Text, codes,
}
use sprout_go.Base.Int.{ℤ, pos, negsuc, int_bound}
use sprout_go.Base.Exec.{Result, ok, err, Exec, pure, raise, lift, ◌>>=◌, ◌>>◌}
use sprout_go.Base.Errors.{scan_fault, expected_integer, out_of_range}
use sprout_go.Fmt.Space.{is_space, skip_space, not_eof, token}

-- The loop of fmtInteger, from the last digit to the first. The fuel is more than the number.
unfoldable pub decimal : ℕ → ℕ → Text → Text
decimal zero n out = out
decimal (suc f) n out =
    let rest = decimal f (n / 10) ((b'0' + n % 10) ∷ out) in
    if n / 10 == 0 then (b'0' + n % 10) ∷ out else rest

unfoldable pub show_nat : ℕ → Text
unfolding decimal
show_nat n = decimal (suc n) n []

unfoldable pub show_int : ℤ → Text
unfolding show_nat
show_int (pos n) = show_nat n
show_int (negsuc n) = b'-' ∷ show_nat (suc n)

abbrev pub is_digit : ℕ → Bool
is_digit c = leb b'0' c && leb c b'9'

-- The number that digits spell behind `n`.
unfoldable pub value : ℕ → Text → ℕ
value n [] = n
value n (c ∷ cs) = value (n * 10 + (c - b'0')) cs

-- The integer with a sign and a magnitude.
abbrev pub signed : Bool → ℕ → ℤ
signed false n = pos n
signed true zero = pos 0
signed true (suc n) = negsuc n

-- ParseInt with 64 bits, of a sign and digits.
unfoldable pub parse_int : Bool → Text → Result ℤ
unfolding value
parse_int negative ds =
    let n = value 0 ds in
    if ltb n (if negative then int_bound + 1 else int_bound)
    then ok (signed negative n)
    else err (scan_fault out_of_range)

unfoldable pub parse_uint : ℕ → Text → Result ℕ
unfolding value
parse_uint bits ds =
    let n = value 0 ds in if ltb n (2 ^ bits) then ok n else err (scan_fault out_of_range)

abbrev pub some_digits : Text → Exec Text Text
some_digits [] = raise (scan_fault expected_integer)
some_digits (d ∷ ds) = pure (d ∷ ds)

-- scanNumber: at least one digit.
unfoldable pub scan_digits : Exec Text Text
scan_digits = do not_eof; ds ← token is_digit; some_digits ds

-- s.accept(sign): is the number negative?
unfoldable pub accept_sign : Exec Text Bool
accept_sign [] = (ok false, [])
accept_sign (c ∷ cs) =
    if c == b'-' then (ok true, cs) else if c == b'+' then (ok false, cs) else (ok false, c ∷ cs)

unfoldable pub scan_int : Exec Text ℤ
scan_int = do
  skip_space
  not_eof
  negative ← accept_sign
  ds ← scan_digits
  lift (parse_int negative ds)

unfoldable pub scan_uint : ℕ → Exec Text ℕ
scan_uint bits = do skip_space; not_eof; ds ← scan_digits; lift (parse_uint bits ds)

show_int_negative : show_int (negsuc 119) ≡ codes "-120"
unfolding show_int
show_int_negative = refl

scan_int_negative : scan_int (codes " -120 x") ≡ (ok (negsuc 119), codes " x")
unfolding scan_int skip_space not_eof accept_sign scan_digits parse_int is_space token
scan_int_negative = refl

scan_too_big : scan_int (codes "9223372036854775808") ≡ (err (scan_fault out_of_range), [])
unfolding scan_int skip_space not_eof accept_sign scan_digits parse_int is_space token
scan_too_big = refl

scan_no_digit : scan_int (codes "-x") ≡ (err (scan_fault expected_integer), codes "x")
unfolding scan_int skip_space not_eof accept_sign scan_digits parse_int is_space token
scan_no_digit = refl
