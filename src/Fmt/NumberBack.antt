-- ===== src/Fmt/NumberBack.antt =====
-- A decimal number is read back.
use sprout_go.Base.{
  ℕ, zero, suc, ◌+◌, ◌/◌, ◌%◌, ◌^◌, ◌<◌, ◌≡◌, refl, true, false, [], ◌∷◌, ◌++◌, arith, Text, All,
}
use sprout_go.Base.Int.{ℤ, pos, negsuc, int_bound, FitsInt}
use sprout_go.Base.Exec.{ok}
use sprout_go.Fmt.Space.{
  StartsInk, skip_space-ink, not_eof, not_eof-ink, StartsInk-append, token-append, digit_is_ink,
}
use sprout_go.Fmt.Number.{
  decimal, show_nat, show_int, is_digit, value, parse_int, parse_uint, some_digits, scan_digits,
  accept_sign, scan_int, scan_uint,
}

abbrev pub IsDigit : ℕ → Type 0
IsDigit c = is_digit c ≡ true

value-decimal : (f n : ℕ) (out : Text) → n < f → value 0 (decimal f n out) ≡ value n out
unfolding value decimal
value-decimal zero n out h = absurd (omega arith)
value-decimal (suc f) n out h = ground (arith, value-decimal f (n / 10) ((b'0' + n % 10) ∷ out))

decimal-digits : (f n : ℕ) (out : Text) → All IsDigit out → All IsDigit (decimal f n out)
unfolding decimal
decimal-digits zero n out a = a
decimal-digits (suc f) n out a = ground (arith, decimal-digits f (n / 10) ((b'0' + n % 10) ∷ out))

-- A text that begins with a digit.
abbrev pub StartsDigit : Text → Type 0
StartsDigit [] = ⊥
StartsDigit (c ∷ cs) = IsDigit c

decimal-StartsDigit : (f n : ℕ) (out : Text) → n < f → StartsDigit (decimal f n out)
unfolding decimal
decimal-StartsDigit zero n out h = absurd (omega arith)
decimal-StartsDigit (suc f) n out h =
    ground (arith, decimal-StartsDigit f (n / 10) ((b'0' + n % 10) ∷ out))

pub value-show_nat : (n : ℕ) → value 0 (show_nat n) ≡ n
unfolding show_nat value
value-show_nat n = value-decimal (suc n) n [] (omega arith)

pub show_nat-digits : (n : ℕ) → All IsDigit (show_nat n)
unfolding show_nat
show_nat-digits n = decimal-digits (suc n) n [] tt

pub show_nat-StartsDigit : (n : ℕ) → StartsDigit (show_nat n)
unfolding show_nat
show_nat-StartsDigit n = decimal-StartsDigit (suc n) n [] (omega arith)

pub StartsInk-digit : (s : Text) → StartsDigit s → StartsInk s
StartsInk-digit [] h = h
StartsInk-digit (c ∷ cs) h = digit_is_ink c (ground arith) (ground arith)

pub show_nat-StartsInk : (n : ℕ) (s : Text) → StartsInk (show_nat n ++ s)
show_nat-StartsInk n s =
    StartsInk-append (show_nat n) s (StartsInk-digit (show_nat n) (show_nat-StartsDigit n))

pub show_int-StartsInk : (z : ℤ) (s : Text) → StartsInk (show_int z ++ s)
unfolding show_int
show_int-StartsInk (pos n) s = show_nat-StartsInk n s
show_int-StartsInk (negsuc n) s = digit_is_ink b'-' (omega arith) (omega arith)

some_digits-start : (ds s : Text) → StartsDigit ds → some_digits ds s ≡ (ok ds, s)
some_digits-start [] s h = absurd h
some_digits-start (d ∷ ds) s h = refl

-- Digits are scanned up to the first character that is none.
pub scan_digits-append :
    (ds : Text) (c : ℕ) (s : Text)
    → StartsDigit ds
    → All IsDigit ds
    → is_digit c ≡ false
    → scan_digits (ds ++ c ∷ s) ≡ (ok ds, c ∷ s)
unfolding scan_digits
scan_digits-append ds c s h a e =
    rw
      (
        not_eof-ink (ds ++ c ∷ s) (StartsInk-append ds (c ∷ s) (StartsInk-digit ds h)),
        token-append is_digit ds c s a e,
      )
      (some_digits-start ds (c ∷ s) h)

accept_sign-digit : (ds s : Text) → StartsDigit ds → accept_sign (ds ++ s) ≡ (ok false, ds ++ s)
unfolding accept_sign
accept_sign-digit [] s h = absurd h
accept_sign-digit (d ∷ ds) s h = ground arith

not_eof-minus : (s : Text) → not_eof (b'-' ∷ s) ≡ (ok tt, b'-' ∷ s)
unfolding not_eof
not_eof-minus s = refl

accept_sign-minus : (s : Text) → accept_sign (b'-' ∷ s) ≡ (ok true, s)
unfolding accept_sign
accept_sign-minus s = refl

parse_int-pos : (n : ℕ) → n < int_bound → parse_int false (show_nat n) ≡ ok (pos n)
unfolding parse_int
parse_int-pos n h = rw value-show_nat (ground arith)

parse_int-neg : (n : ℕ) → n < int_bound → parse_int true (show_nat (suc n)) ≡ ok (negsuc n)
unfolding parse_int
parse_int-neg n h = rw value-show_nat (ground arith)

-- A printed `int` is scanned back, up to a character that is no digit.
pub scan_int-show_int :
    (z : ℤ) (c : ℕ) (s : Text)
    → FitsInt z
    → is_digit c ≡ false
    → scan_int (show_int z ++ c ∷ s) ≡ (ok z, c ∷ s)
unfolding scan_int show_int
scan_int-show_int (pos n) c s h e = rw (
  skip_space-ink (show_nat n ++ c ∷ s) (show_nat-StartsInk n (c ∷ s)),
  not_eof-ink (show_nat n ++ c ∷ s) (show_nat-StartsInk n (c ∷ s)),
  accept_sign-digit (show_nat n) (c ∷ s) (show_nat-StartsDigit n),
  scan_digits-append (show_nat n) c s (show_nat-StartsDigit n) (show_nat-digits n) e,
  parse_int-pos n h,
)
scan_int-show_int (negsuc n) c s h e = rw (
  skip_space-ink (b'-' ∷ show_nat (suc n) ++ c ∷ s) (digit_is_ink b'-' (omega arith) (omega arith)),
  not_eof-minus (show_nat (suc n) ++ c ∷ s),
  accept_sign-minus (show_nat (suc n) ++ c ∷ s),
  scan_digits-append (show_nat (suc n)) c s (show_nat-StartsDigit (suc n)) (show_nat-digits (suc n))
      e,
  parse_int-neg n h,
)

-- So is a printed unsigned number that fits its type.
pub scan_uint-show_nat :
    (bits n c : ℕ) (s : Text)
    → n < 2 ^ bits
    → is_digit c ≡ false
    → scan_uint bits (show_nat n ++ c ∷ s) ≡ (ok n, c ∷ s)
unfolding scan_uint parse_uint
scan_uint-show_nat bits n c s h e =
    rw
      (
        skip_space-ink (show_nat n ++ c ∷ s) (show_nat-StartsInk n (c ∷ s)),
        not_eof-ink (show_nat n ++ c ∷ s) (show_nat-StartsInk n (c ∷ s)),
        scan_digits-append (show_nat n) c s (show_nat-StartsDigit n) (show_nat-digits n) e,
        value-show_nat n,
      )
      (ground arith)
