-- ===== src/Conn/Texts.antt =====
-- The texts of statuses and of the errors of replies: StatusCode.String, Status.Error, and
-- UnsolicitedMessageError.Error.
use mathlib.Core.List.{append-nil}
use sprout_go.Base.{
  ℕ, ◌≡◌, ◌∙◌, refl, sym, ap, false, [], ◌∷◌, ◌++◌, drop, if◌then◌else◌, Text, codes,
}
use sprout_go.Base.Int.{ℤ, ◌==ℤ◌, FitsInt}
use sprout_go.Base.Exec.{Result, ok}
use sprout_go.Fmt.Number.{show_int, scan_int, is_digit}
use sprout_go.Fmt.NumberBack.{scan_int-show_int}
use sprout_go.Fmt.Format.{int, string, printf, print_value}
use sprout_go.Conn.Send.{
  status_ok, error_malformed, error_protocol_too_old, error_protocol_too_new, error_unknown_node,
}

abbrev description : ℤ → Text
description code =
    if code ==ℤ status_ok
    then codes "ok"
    else if code ==ℤ error_malformed
    then codes "malformed protocol message"
    else if code ==ℤ error_protocol_too_old
    then codes "protocol too old"
    else if code ==ℤ error_protocol_too_new
    then codes "protocol too new"
    else if code ==ℤ error_unknown_node
    then codes "referenced unknown node"
    else []

unfoldable pub status_string : ℤ → Text
unfolding printf
status_string code =
    printf (codes "status code %d (%s)") (int code ∷ string (description code) ∷ [])

-- Sprintf of a StatusCode with the verb %s prints its String.
unfoldable pub status_error : ℤ → Text
unfolding printf status_string
status_error code = printf (codes "%s") (string (status_string code) ∷ [])

unfoldable pub unsolicited_error : ℤ → Text
unfolding printf
unsolicited_error id =
    printf
      (codes "received status or response message for id %d, but nothing was waiting for that id")
      (int id ∷ [])

-- What follows the ID in the text of an UnsolicitedMessageError.
abbrev no_waiter : Text
no_waiter = codes " but nothing was waiting for that id"

-- What a number is printed into determines the number.
same_number :
    (a b : ℤ) (c : ℕ) (s t : Text)
    → FitsInt a
    → FitsInt b
    → is_digit c ≡ false
    → show_int a ++ c ∷ s ≡ show_int b ++ c ∷ t
    → a ≡ b
same_number a b c s t f g d e =
    let p : ok a ≡ ok b =
      sym (ap (λ (p : Result ℤ × Text). p.0) (scan_int-show_int a c s f d))
      ∙ ap (λ x. (scan_int x).0) e
      ∙ ap (λ (p : Result ℤ × Text). p.0) (scan_int-show_int b c t g d) in
    cc

status_error-status_string : (code : ℤ) → status_error code ≡ status_string code
unfolding status_error printf print_value
status_error-status_string code = append-nil (status_string code)

status_string-differ : (a b : ℤ) → FitsInt a → FitsInt b → status_string a ≡ status_string b → a ≡ b
unfolding status_string printf print_value
status_string-differ a b f g e = same_number a b b' ' _ _ f g refl (ap (drop 12) e)

-- Statuses with different codes have different texts, and so have the errors of unsolicited replies
-- to different messages, for codes and message IDs that are 64-bit integers.
pub texts-differ :
    (a b : ℤ)
    → FitsInt a
    → FitsInt b
    → (status_error a ≡ status_error b → a ≡ b)
      × (unsolicited_error a ≡ unsolicited_error b → a ≡ b)
unfolding unsolicited_error printf print_value
texts-differ a b f g = (
  λ e.
      status_string-differ a b f g
        (sym (status_error-status_string a) ∙ e ∙ status_error-status_string b),
  λ e. same_number a b b',' no_waiter no_waiter f g refl (ap (drop 43) e),
)
