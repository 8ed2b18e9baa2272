-- ===== src/Conn/RoundTrip.antt =====
-- A message that one end writes is the message that the other end reads.
use sprout_go.Base.{
  suc, ◌≡◌, ◌∙◌, refl, ap, true, false, some, List, [], ◌∷◌, ◌++◌, arith, length, Text,
}
use mathlib.Core.List.{append_assoc, append-nil}
use sprout_go.Base.Int.{ℤ, FitsInt}
use sprout_go.Base.Exec.{ok}
use sprout_go.Fmt.Space.{IsWord, is_space, newline, blank}
use sprout_go.Fmt.Format.{
  int, uint, string, int_kind, uint_kind, string_kind, print_value, printf, directives, gap,
  literal, verb, scan_directives, scanf,
}
use sprout_go.Fmt.FormatBack.{
  verb_of, Field, AllFit, kinds, values, blank_separated, print_fields, scan_fields,
  scan_directives-field, scan_directives-verb, scan_directives-literal, scan_directives-newline,
}
use sprout_go.Forest.{Forest, ForestLaws}
use sprout_go.Conn.Verbs.{
  Verb, version, list, query, ancestry, leaves_of, subscribe, unsubscribe, announce, response,
  status, verb_text, formats, verb_of_word-verb_text,
}
use sprout_go.Conn.Send.{count}
use sprout_go.Conn.Nodes.{unmarshal_hash, stringify_node_ids, stringify_nodes}
use sprout_go.Conn.Bodies.{read_node_ids-stringify, read_node_lines-stringify}
use sprout_go.Conn.Wire.{IsSendable, message_text}
use sprout_go.Conn.Parse.{
  Message, version_message, list_message, query_message, ancestry_message, leaves_of_message,
  response_message, subscribe_message, unsubscribe_message, status_message, announce_message,
  no_message, scan_op, fields, parse_fields, parse_verb, parse_word, parse_message,
}

verb_text-IsWord : (v : Verb) → IsWord (verb_text v)
unfolding is_space
verb_text-IsWord version = ground arith
verb_text-IsWord _ = ground arith

scan_word :
    (w s : Text)
    → IsWord w
    → scan_directives (verb b's' ∷ []) (string_kind ∷ []) (w ++ blank ∷ s)
      ≡ (ok (string w ∷ []), blank ∷ s)
unfolding print_value scan_directives is_space
scan_word w s h = scan_directives-verb string_kind (string w) [] [] blank s h refl

length-values : (fs : List Field) → length (values fs) ≡ length (kinds fs)
length-values [] = refl
length-values (f ∷ fs) = ap suc (length-values fs)

-- The fields of a verb whose format separates them by blanks.
scan_op-fields :
    (v : Verb) (fs : List Field) (s : Text)
    → directives (formats v) ≡ blank_separated fs
    → AllFit fs
    → scan_op v (kinds fs) (print_fields fs s) ≡ (ok (values fs), s)
unfolding scan_op scanf
scan_op-fields v fs s e h = rw (e, scan_fields fs s h, length-values fs) (ground arith)

-- The verb of a message is read off.
parse_message-verb :
    (F : Forest) (v : Verb) (s : Text)
    → parse_message F (verb_text v ++ blank ∷ s) ≡ parse_verb F (some v) (blank ∷ s)
unfolding parse_message scanf directives parse_word
parse_message-verb F v s =
    rw (scan_word (verb_text v) s (verb_text-IsWord v), verb_of_word-verb_text v)

-- The verb and the fields of a message are read off, for a format with blanks.
pub parse_message-fields :
    (F : Forest) (v : Verb) (f : Field) (fs : List Field) (s : Text)
    → directives (formats v) ≡ blank_separated (f ∷ fs)
    → fields F v ≡ kinds (f ∷ fs)
    → AllFit (f ∷ fs)
    → parse_message F (verb_text v ++ print_fields (f ∷ fs) s)
      ≡ parse_fields F v (values (f ∷ fs)) s
unfolding parse_verb
parse_message-fields F v f fs s e k h = rw (
  parse_message-verb F v (print_value (verb_of f.0) f.1 ++ print_fields fs s),
  k,
  scan_op-fields v (f ∷ fs) s e h,
)

-- The format of `version`, whose last two numbers are joined by a dot.
scan_op-version :
    (id major minor : ℤ) (s : Text)
    → FitsInt id
    → FitsInt major
    → FitsInt minor
    → scan_op version (int_kind ∷ int_kind ∷ int_kind ∷ []) (
        blank ∷ print_value b'd' (int id)
        ++ (blank ∷ print_value b'd' (int major)
            ++ (b'.' ∷ print_value b'd' (int minor) ++ newline ∷ s)))
      ≡ (ok (int id ∷ int major ∷ int minor ∷ []), s)
unfolding scan_op scanf directives
scan_op-version id major minor s hi ha hb = rw (
  scan_directives-field int_kind (int id)
      (gap 0 true ∷ verb b'd' ∷ literal b'.' ∷ verb b'd' ∷ gap 1 false ∷ [])
      (int_kind ∷ int_kind ∷ []) blank
      (print_value b'd' (int major) ++ (b'.' ∷ print_value b'd' (int minor) ++ newline ∷ s)) hi
      refl,
  scan_directives-field int_kind (int major) (literal b'.' ∷ verb b'd' ∷ gap 1 false ∷ [])
      (int_kind ∷ []) b'.' (print_value b'd' (int minor) ++ newline ∷ s) ha refl,
  scan_directives-literal b'.' (verb b'd' ∷ gap 1 false ∷ []) (int_kind ∷ [])
      (print_value b'd' (int minor) ++ newline ∷ s),
  scan_directives-verb int_kind (int minor) (gap 1 false ∷ []) [] newline s hb refl,
  scan_directives-newline s,
)

module _ (F : Forest) (laws : ForestLaws F) where
  open F use {Hash, Node}

  -- A message that is written is read back as that message, and nothing of what follows it is
  -- consumed.
  pub parse_message-message_text :
      (m : Message Hash Node) (rest : Text)
      → IsSendable F m
      → parse_message F (message_text F m ++ rest) ≡ (ok m, rest)
  unfolding message_text printf parse_fields directives print_value unmarshal_hash
  parse_message-message_text (version_message id major minor) rest h = simp append_assoc (
      parse_message-verb F version (
        print_value b'd' (int id)
        ++ (blank ∷ print_value b'd' (int major)
            ++ (b'.' ∷ print_value b'd' (int minor) ++ newline ∷ rest)))
      ∙ unfold parse_verb in rw (scan_op-version id major minor rest h.0 h.1 h.2))
  parse_message-message_text (list_message id node_type quantity) rest h = simp append_assoc (
      parse_message-fields F list (int_kind, int id)
        ((uint_kind F.node_type_bits, uint node_type) ∷ (int_kind, int quantity) ∷ []) rest refl
        refl (h.0, (h.1, (h.2, tt))))
  parse_message-message_text (query_message id ids) rest h =
      simp (append_assoc, append-nil)
        (parse_message-fields F query (int_kind, int id) ((int_kind, count F ids) ∷ [])
            (stringify_node_ids F ids ++ rest) refl refl (h.0, (omega arith, tt))
          ∙ rw (read_node_ids-stringify F laws ids rest h.1))
  parse_message-message_text (ancestry_message id node levels) rest h = simp append_assoc (
      parse_message-fields F ancestry (int_kind, int id)
        ((string_kind, string (F.hash_string node)) ∷ (int_kind, int levels) ∷ []) rest refl refl
        (h.0, (laws.string-IsWord node, (h.1, tt)))
      ∙ rw (laws.unmarshal-string node))
  parse_message-message_text (leaves_of_message id node quantity) rest h = simp append_assoc (
      parse_message-fields F leaves_of (int_kind, int id)
        ((string_kind, string (F.hash_string node)) ∷ (int_kind, int quantity) ∷ []) rest refl refl
        (h.0, (laws.string-IsWord node, (h.1, tt)))
      ∙ rw (laws.unmarshal-string node))
  parse_message-message_text (response_message target nodes) rest h =
      simp (append_assoc, append-nil)
        (parse_message-fields F response (int_kind, int target) ((int_kind, count F nodes) ∷ [])
            (stringify_nodes F nodes ++ rest) refl refl (h.0, (omega arith, tt))
          ∙ rw (read_node_lines-stringify F laws nodes rest h.1))
  parse_message-message_text (subscribe_message id node) rest h = simp append_assoc (
      parse_message-fields F subscribe (int_kind, int id)
        ((string_kind, string (F.hash_string node)) ∷ []) rest refl refl
        (h, (laws.string-IsWord node, tt))
      ∙ rw (laws.unmarshal-string node))
  parse_message-message_text (unsubscribe_message id node) rest h = simp append_assoc (
      parse_message-fields F unsubscribe (int_kind, int id)
        ((string_kind, string (F.hash_string node)) ∷ []) rest refl refl
        (h, (laws.string-IsWord node, tt))
      ∙ rw (laws.unmarshal-string node))
  parse_message-message_text (status_message target code) rest h = simp append_assoc (
      parse_message-fields F status (int_kind, int target) ((int_kind, int code) ∷ []) rest refl
        refl (h.0, (h.1, tt)))
  parse_message-message_text (announce_message id nodes) rest h =
      simp (append_assoc, append-nil)
        (parse_message-fields F announce (int_kind, int id) ((int_kind, count F nodes) ∷ [])
            (stringify_nodes F nodes ++ rest) refl refl (h.0, (omega arith, tt))
          ∙ rw (read_node_lines-stringify F laws nodes rest h.1))
  parse_message-message_text no_message rest h = absurd h
