-- ===== src/Fmt/Space.antt =====
-- White space and tokens: SkipSpace, `token` and `notEOF` of fmt/scan.go.
use sprout_go.Base.{
  ℕ, ◌≤◌, ◌≡◌, refl, Bool, true, false, ◌&&◌, ◌||◌, [], ◌∷◌, ◌++◌, arith, leb, ◌==◌, if◌then◌else◌,
  Text, All,
}
use sprout_go.Base.Exec.{ok, err, Exec}
use sprout_go.Base.Errors.{scan_fault, unexpected_newline, eof, expected_newline}

abbrev pub newline : ℕ
newline = 10

abbrev pub blank : ℕ
blank = 32

-- isSpace, over all of Unicode.
unfoldable pub is_space : ℕ → Bool
is_space c =
    (leb 9 c && leb c 13)
    || c == 0x20
    || c == 0x85
    || c == 0xa0
    || c == 0x1680
    || (leb 0x2000 c && leb c 0x200a)
    || c == 0x2028
    || c == 0x2029
    || c == 0x202f
    || c == 0x205f
    || c == 0x3000

-- SkipSpace, where a newline is no space.
unfoldable pub skip_space : Exec Text (Unit {0})
skip_space [] = (ok tt, [])
skip_space (c ∷ cs) =
    let rest = skip_space cs in
    if c == newline
    then (err (scan_fault unexpected_newline), cs)
    else if is_space c
    then rest
    else (ok tt, c ∷ cs)

unfoldable pub not_eof : Exec Text (Unit {0})
not_eof [] = (err (scan_fault eof), [])
not_eof (c ∷ cs) = (ok tt, c ∷ cs)

-- The longest prefix whose characters pass a test, and what is behind it.
unfoldable pub span : (ℕ → Bool) → Text → Text × Text
span p [] = ([], [])
span p (c ∷ cs) = let r = span p cs in if p c then (c ∷ r.0, r.1) else ([], c ∷ cs)

unfoldable pub token : (ℕ → Bool) → Exec Text Text
unfolding span
token p s = let r = span p s in (ok r.0, r.1)

-- The end of a line, for Fscanln.
unfoldable pub line_end : Exec Text (Unit {0})
line_end [] = (ok tt, [])
line_end (c ∷ cs) =
    let rest = line_end cs in
    if c == newline
    then (ok tt, cs)
    else if is_space c
    then rest
    else (err (scan_fault expected_newline), cs)

-- A text that begins with a character that is not white space.
abbrev pub StartsInk : Text → Type 0
StartsInk [] = ⊥
StartsInk (c ∷ cs) = is_space c ≡ false

abbrev pub IsInk : ℕ → Type 0
IsInk c = is_space c ≡ false

-- A word: some characters, none of which is white space.
abbrev pub IsWord : Text → Type 0
IsWord w = StartsInk w × All IsInk w

newline-is_space : (c : ℕ) → is_space c ≡ false → (c == newline) ≡ false
unfolding is_space
newline-is_space c h = ground arith

pub skip_space-ink : (s : Text) → StartsInk s → skip_space s ≡ (ok tt, s)
unfolding skip_space
skip_space-ink [] h = absurd h
skip_space-ink (c ∷ cs) h = rw (newline-is_space c h, h)

pub not_eof-ink : (s : Text) → StartsInk s → not_eof s ≡ (ok tt, s)
unfolding not_eof
not_eof-ink [] h = absurd h
not_eof-ink (c ∷ cs) h = refl

pub StartsInk-append : (w s : Text) → StartsInk w → StartsInk (w ++ s)
StartsInk-append [] s h = absurd h
StartsInk-append (c ∷ w) s h = h

-- A token ends where the test fails.
pub token-append :
    (p : ℕ → Bool) (w : Text) (c : ℕ) (s : Text)
    → All (λ d. p d ≡ true) w
    → p c ≡ false
    → token p (w ++ c ∷ s) ≡ (ok w, c ∷ s)
unfolding token
token-append p [] c s a h = rw h
token-append p (d ∷ w) c s a h = ground (arith, token-append p w c s a.1 h)

pub digit_is_ink : (c : ℕ) → 33 ≤ c → c ≤ 126 → is_space c ≡ false
unfolding is_space
digit_is_ink c h k = ground arith
