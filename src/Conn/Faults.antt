-- ===== src/Conn/Faults.antt =====
-- Input that is no message: words that are no verb, and counts that no slice can have.
use sprout_go.Base.{ℕ, ◌≡◌, refl, true, none, [], ◌∷◌, ◌++◌, Text}
use mathlib.Core.List.{append_assoc}
use sprout_go.Base.Int.{ℤ, negsuc, FitsInt}
use sprout_go.Base.Exec.{ok, panics}
use sprout_go.Fmt.Space.{IsWord, is_space}
use sprout_go.Fmt.Format.{
  int, string, int_kind, string_kind, printf, directives, scan_directives, scanf, print_value,
}
use sprout_go.Fmt.FormatBack.{scan_directives-verb}
use sprout_go.Forest.{Forest}
use sprout_go.Conn.Verbs.{query, announce, response, verb_of_word}
use sprout_go.Conn.Nodes.{make_slice, read_node_lines, read_node_ids}
use sprout_go.Conn.Parse.{no_message, parse_fields, parse_verb, parse_word, parse_message}
use sprout_go.Conn.Send.{op_format}
use sprout_go.Conn.RoundTrip.{parse_message-fields}

module _ (F : Forest) where
  -- A word that is no verb is read and dropped with no error, and the rest of its line is left to be
  -- read as the next message.
  pub parse_message-unknown :
      (word : Text) (c : ℕ) (s : Text)
      → IsWord word
      → verb_of_word word ≡ none
      → is_space c ≡ true
      → parse_message F (word ++ c ∷ s) ≡ (ok no_message, c ∷ s)
  unfolding parse_message scanf directives parse_word parse_verb scan_directives print_value
  parse_message-unknown word c s h e k =
      rw (scan_directives-verb string_kind (string word) [] [] c s h k, e)

  negative_query :
      (id : ℤ) (n : ℕ) (rest : Text)
      → FitsInt id
      → FitsInt (negsuc n)
      → parse_message F (printf (op_format query) (int id ∷ int (negsuc n) ∷ []) ++ rest)
        ≡ (panics, rest)
  unfolding printf directives parse_fields read_node_ids make_slice
  negative_query id n rest h k = simp append_assoc (
      parse_message-fields F query (int_kind, int id) ((int_kind, int (negsuc n)) ∷ []) rest refl
        refl (h, (k, tt)))

  negative_announce :
      (id : ℤ) (n : ℕ) (rest : Text)
      → FitsInt id
      → FitsInt (negsuc n)
      → parse_message F (printf (op_format announce) (int id ∷ int (negsuc n) ∷ []) ++ rest)
        ≡ (panics, rest)
  unfolding printf directives parse_fields read_node_lines make_slice
  negative_announce id n rest h k = simp append_assoc (
      parse_message-fields F announce (int_kind, int id) ((int_kind, int (negsuc n)) ∷ []) rest refl
        refl (h, (k, tt)))

  negative_response :
      (id : ℤ) (n : ℕ) (rest : Text)
      → FitsInt id
      → FitsInt (negsuc n)
      → parse_message F (printf (op_format response) (int id ∷ int (negsuc n) ∷ []) ++ rest)
        ≡ (panics, rest)
  unfolding printf directives parse_fields read_node_lines make_slice
  negative_response id n rest h k = simp append_assoc (
      parse_message-fields F response (int_kind, int id) ((int_kind, int (negsuc n)) ∷ []) rest refl
        refl (h, (k, tt)))

  -- A query, an announcement or a response that says that a negative number of lines follows is a
  -- run-time panic of the end that reads it.
  pub parse_message-negative_count :
      (id : ℤ) (n : ℕ) (rest : Text)
      → FitsInt id
      → FitsInt (negsuc n)
      → (parse_message F (printf (op_format query) (int id ∷ int (negsuc n) ∷ []) ++ rest)
          ≡ (panics, rest))
        × (parse_message F (printf (op_format announce) (int id ∷ int (negsuc n) ∷ []) ++ rest)
            ≡ (panics, rest))
        × (parse_message F (printf (op_format response) (int id ∷ int (negsuc n) ∷ []) ++ rest)
            ≡ (panics, rest))
  parse_message-negative_count id n rest h k = (
    negative_query id n rest h k,
    negative_announce id n rest h k,
    negative_response id n rest h k,
  )
