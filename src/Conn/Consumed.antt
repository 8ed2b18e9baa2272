-- ===== src/Conn/Consumed.antt =====
-- Each message that is read makes the input shorter, unless not even a word could be read.
use sprout_go.Base.{
  ℕ, zero, suc, ◌≤◌, ◌<◌, ◌≡◌, ◌⊎◌, inl, inr, ap, Bool, true, false, Option, none, some, List, [],
  ◌∷◌, ◌*◌, ◌^◌, ltb, arith, length, if◌then◌else◌, Text, codes,
}
use sprout_go.Base.Int.{ℤ, pos, negsuc}
use sprout_go.Base.Exec.{Result, ok, err, panics, Exec, lift, continue, on_error}
use sprout_go.Base.Errors.{Error, ScanFault, scan_fault, wrapped, opaque, foreign}
use sprout_go.Base.Shrinks.{Shrinks-idle, Shrinks-bind, Shrinks-rethrow}
use sprout_go.Fmt.Format.{Value, int, uint, string, Kind, string_kind, scanf}
use sprout_go.Fmt.Consumed.{Reads, scanf-Reads, scan_line-Reads}
use sprout_go.Fmt.Word.{IsWordScan, scanf-IsWordScan}
use sprout_go.Base64.{decode}
use sprout_go.Forest.{Forest}
use sprout_go.Conn.Verbs.{Verb, formats, verb_of_word}
use sprout_go.Conn.Nodes.{
  make_slice, or_raise, unmarshal_hash, node_from_base64_url, check_id, node_of_fields,
  read_node_line, read_node_id, fill, read_node_lines, read_node_ids,
}
use sprout_go.Conn.Parse.{
  scan_op, fields, scan_error, parse_fields, parse_verb, parse_word, parse_message, not_enough,
}

or_raise-Reads : {A : Type 0} (o : Option A) (e : Error) → Reads (or_raise o e)
or_raise-Reads none e = Shrinks-idle length (err e)
or_raise-Reads (some a) e = Shrinks-idle length (ok a)

if-Reads : {A : Type 0} (b : Bool) (r s : Result A) → Reads (if b then lift r else lift s)
if-Reads true r s = Shrinks-idle length r
if-Reads false r s = Shrinks-idle length s

make_slice-Reads : (size : ℕ) (count : ℤ) → Reads (make_slice size count)
unfolding make_slice
make_slice-Reads size (pos n) = if-Reads (ltb (2 ^ 48) (size * n)) panics (ok n)
make_slice-Reads size (negsuc n) = Shrinks-idle length panics

fill-Reads : {A : Type 0} (read : Exec Text A) (n : ℕ) → Reads read → Reads (fill read n)
unfolding fill
fill-Reads read zero h = Shrinks-idle length (ok [])
fill-Reads read (suc n) h =
    Shrinks-bind length h
      (λ a. Shrinks-bind length (fill-Reads read n h) (λ rest. Shrinks-idle length (ok (a ∷ rest))))

scan_op-Reads : (verb : Verb) (ks : List Kind) → Reads (scan_op verb ks)
unfolding scan_op
scan_op-Reads verb ks =
    Shrinks-bind length (Shrinks-rethrow length _ (scanf-Reads (formats verb) ks))
      (λ vs. if-Reads (ltb (length vs) (length ks)) (err not_enough) (ok vs))

module _ (F : Forest) where
  open F use {Hash, Node}

  unmarshal_hash-Reads : (t : Text) → Reads (unmarshal_hash F t)
  unfolding unmarshal_hash
  unmarshal_hash-Reads t = or_raise-Reads _ _

  node_from_base64_url-Reads : (t : Text) → Reads (node_from_base64_url F t)
  unfolding node_from_base64_url
  node_from_base64_url-Reads t =
      Shrinks-bind length
        (or_raise-Reads (decode t)
          (opaque "failed to decode node string: %v" (foreign "base64.CorruptInputError")))
        (λ b.
          or_raise-Reads (F.unmarshal_binary_node b)
            (opaque "failed to unmarshal node from string: %v" (foreign "UnmarshalBinaryNode")))

  check_id-Reads : (h : Hash) (n : Node) → Reads (check_id F h n)
  unfolding check_id
  check_id-Reads h n = if-Reads (F.equals (F.id n) h) (ok n) _

  node_of_fields-Reads : (vs : List Value) → Reads (node_of_fields F vs)
  unfolding node_of_fields
  node_of_fields-Reads (string s ∷ string t ∷ []) =
      Shrinks-bind length (Shrinks-rethrow length _ (unmarshal_hash-Reads s)) (λ h.
        Shrinks-bind length (Shrinks-rethrow length _ (node_from_base64_url-Reads t))
          (λ n. check_id-Reads h n))
  node_of_fields-Reads [] = Shrinks-idle length _
  node_of_fields-Reads (int z ∷ vs) = Shrinks-idle length _
  node_of_fields-Reads (uint z ∷ vs) = Shrinks-idle length _
  node_of_fields-Reads (string s ∷ []) = Shrinks-idle length _
  node_of_fields-Reads (string s ∷ int z ∷ vs) = Shrinks-idle length _
  node_of_fields-Reads (string s ∷ uint z ∷ vs) = Shrinks-idle length _
  node_of_fields-Reads (string s ∷ string t ∷ v ∷ vs) = Shrinks-idle length _

  read_node_line-Reads : Reads (read_node_line F)
  unfolding read_node_line
  read_node_line-Reads =
      Shrinks-bind length (Shrinks-rethrow length _ (scanf-Reads _ _)) node_of_fields-Reads

  read_node_id-Reads : Reads (read_node_id F)
  unfolding read_node_id
  read_node_id-Reads =
      Shrinks-bind length (Shrinks-rethrow length _ scan_line-Reads)
        (λ t. Shrinks-rethrow length _ (unmarshal_hash-Reads t))

  read_node_lines-Reads : (count : ℤ) → Reads (read_node_lines F count)
  unfolding read_node_lines
  read_node_lines-Reads count =
      Shrinks-bind length (make_slice-Reads 16 count)
        (λ n. fill-Reads (read_node_line F) n read_node_line-Reads)

  read_node_ids-Reads : (count : ℤ) → Reads (read_node_ids F count)
  unfolding read_node_ids
  read_node_ids-Reads count =
      Shrinks-bind length (make_slice-Reads 8 count)
        (λ n. fill-Reads (read_node_id F) n read_node_id-Reads)

  -- The count of a message that has one.
  abbrev second : List Value → ℤ
  second (v ∷ int count ∷ vs) = count
  second _ = pos 0

  parse_fields-Reads : (verb : Verb) (vs : List Value) → Reads (parse_fields F verb vs)
  unfolding parse_fields unmarshal_hash
  parse_fields-Reads verb vs = record {
    shrinks = λ t. ground (
      arith,
      (read_node_ids-Reads (second vs)).shrinks t,
      (read_node_lines-Reads (second vs)).shrinks t,
    );
  }

  parse_verb-Reads : (verb : Option Verb) → Reads (parse_verb F verb)
  unfolding parse_verb
  parse_verb-Reads none = Shrinks-idle length _
  parse_verb-Reads (some verb) =
      Shrinks-bind length
        (Shrinks-rethrow length (scan_error F verb) (scan_op-Reads verb (fields F verb)))
        (λ vs. parse_fields-Reads verb vs)

  parse_word-Reads : (vs : List Value) → Reads (parse_word F vs)
  unfolding parse_word
  parse_word-Reads [] = Shrinks-idle length _
  parse_word-Reads (int z ∷ vs) = Shrinks-idle length _
  parse_word-Reads (uint n ∷ vs) = Shrinks-idle length _
  parse_word-Reads (string w ∷ []) = parse_verb-Reads (verb_of_word w)
  parse_word-Reads (string w ∷ v ∷ vs) = Shrinks-idle length _

  -- What is left is shorter than a number, unless not even a word could be scanned.
  unfoldable pub IsProgress : {A : Type 0} → ℕ → Result A × Text → Type 0
  IsProgress n (ok a, t) = length t < n
  IsProgress n (err e, t) =
      (length t < n)
      ⊎ ((length t ≤ n) × (f : ScanFault) × (e ≡ wrapped "error scanning verb: %w" (scan_fault f)))
  IsProgress n (panics, t) = length t ≤ n

  shorter-IsProgress : {A : Type 0} (n : ℕ) (p : Result A × Text) → length p.1 < n → IsProgress n p
  unfolding IsProgress
  shorter-IsProgress n (ok a, t) h = h
  shorter-IsProgress n (err e, t) h = inl h
  shorter-IsProgress n (panics, t) h = omega (arith, h)

  parse_word-IsProgress :
      (n : ℕ) (p : Result (List Value) × Text)
      → IsWordScan n p
      → IsProgress n (continue (on_error (wrapped "error scanning verb: %w") p) (parse_word F))
  unfolding IsWordScan IsProgress
  parse_word-IsProgress n (ok vs, t) h =
      shorter-IsProgress n (parse_word F vs t) (omega (arith, h, (parse_word-Reads vs).shrinks t))
  parse_word-IsProgress n (err e, t) (l, f, q) =
      inr (l, f, ap (wrapped "error scanning verb: %w") q)
  parse_word-IsProgress n (panics, t) h = absurd h

  pub parse_message-IsProgress : (t : Text) → IsProgress (length t) (parse_message F t)
  unfolding parse_message
  parse_message-IsProgress t =
      parse_word-IsProgress (length t) (scanf (codes "%s") (string_kind ∷ []) t)
        (scanf-IsWordScan t)
