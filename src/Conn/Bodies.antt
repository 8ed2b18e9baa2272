-- ===== src/Conn/Bodies.antt =====
-- The bodies of messages are read back: node IDs and nodes, one to a line.
use sprout_go.Base.{ℕ, ◌≡◌, ◌≢◌, refl, true, false, List, [], ◌∷◌, ◌++◌, arith, length, Text, All}
use mathlib.Core.List.{append_assoc}
use sprout_go.Base.Int.{pos}
use sprout_go.Base.Exec.{ok}
use sprout_go.Fmt.Space.{
  IsWord, IsInk, StartsInk, StartsInk-append, is_space, newline, blank, digit_is_ink,
}
use sprout_go.Fmt.Format.{string, string_kind, print_value, printf, directives, gap, verb, scanf}
use sprout_go.Fmt.FormatBack.{
  scan_directives-verb, scan_directives-blank, scan_directives-newline, scan_line-word,
}
use sprout_go.Base64.{encode, decode-encode, IsByte, IsDigit64, encode-IsDigit64}
use sprout_go.Forest.{Forest, ForestLaws}
use sprout_go.Conn.Nodes.{
  make_slice, node_line_format, stringify_node_ids, node_line, stringify_nodes, unmarshal_hash,
  node_from_base64_url, check_id, node_of_fields, read_node_line, read_node_id, fill,
  read_node_lines, read_node_ids,
}
use sprout_go.Conn.Wire.{FitsSlice}

IsInk-of_digits : (s : Text) → All IsDigit64 s → All IsInk s
IsInk-of_digits [] h = tt
IsInk-of_digits (c ∷ s) h = (digit_is_ink c (omega arith) (omega arith), IsInk-of_digits s h.1)

encode-StartsInk : (bs : List ℕ) → bs ≢ [] → All IsInk (encode bs) → StartsInk (encode bs)
unfolding encode
encode-StartsInk [] n h = absurd (n refl)
encode-StartsInk (a ∷ []) n h = h.0
encode-StartsInk (a ∷ b ∷ []) n h = h.0
encode-StartsInk (a ∷ b ∷ c ∷ r) n h = h.0

-- An encoded node is one word.
encode-IsWord : (bs : List ℕ) → bs ≢ [] → All IsByte bs → IsWord (encode bs)
encode-IsWord bs n h =
    let ink = IsInk-of_digits (encode bs) (encode-IsDigit64 bs h) in
    (encode-StartsInk bs n ink, ink)

-- The two words of a line, by the format of node lines.
scan_node_line :
    (v w s : Text)
    → IsWord v
    → IsWord w
    → scanf node_line_format (string_kind ∷ string_kind ∷ []) (v ++ blank ∷ (w ++ newline ∷ s))
      ≡ (ok (string v ∷ string w ∷ []), s)
unfolding scanf directives print_value is_space
scan_node_line v w s hv hw = rw (
  scan_directives-verb string_kind (string v) (gap 0 true ∷ verb b's' ∷ gap 1 false ∷ [])
      (string_kind ∷ []) blank (w ++ newline ∷ s) hv refl,
  scan_directives-blank (verb b's' ∷ gap 1 false ∷ []) (string_kind ∷ []) (w ++ newline ∷ s)
      (StartsInk-append w (newline ∷ s) hw.0),
  scan_directives-verb string_kind (string w) (gap 1 false ∷ []) [] newline s hw refl,
  scan_directives-newline s,
)

-- A slice that fits is made.
make_slice-fits {ℓ κ} :
    {S : Type ℓ} {A : Type κ} (size : ℕ) (xs : List A) (s : S)
    → FitsSlice size xs
    → make_slice size (pos (length xs)) s ≡ (ok (length xs), s)
unfolding make_slice
make_slice-fits size xs s h = ground arith

module _ (F : Forest) (laws : ForestLaws F) where
  open F use {Hash, Node}
  open laws use {
    equals_iff, unmarshal-marshal, marshal-IsWord, unmarshal-node, node-bytes, node-ne-nil,
  }

  read_node_id-back :
      (h : Hash) (s : Text) → read_node_id F (F.marshal_text h ++ newline ∷ s) ≡ (ok h, s)
  unfolding read_node_id unmarshal_hash
  read_node_id-back h s =
      rw (scan_line-word (F.marshal_text h) s (marshal-IsWord h), unmarshal-marshal h)

  fill_ids :
      (hs : List Hash) (s : Text)
      → fill (read_node_id F) (length hs) (stringify_node_ids F hs ++ s) ≡ (ok hs, s)
  unfolding fill stringify_node_ids
  fill_ids [] s = refl
  fill_ids (h ∷ hs) s = rw (
    append_assoc (F.marshal_text h) (newline ∷ stringify_node_ids F hs) s,
    read_node_id-back h (stringify_node_ids F hs ++ s),
    fill_ids hs s,
  )

  -- The IDs of a query are read back.
  pub read_node_ids-stringify :
      (hs : List Hash) (s : Text)
      → FitsSlice 8 hs
      → read_node_ids F (pos (length hs)) (stringify_node_ids F hs ++ s) ≡ (ok hs, s)
  unfolding read_node_ids
  read_node_ids-stringify hs s h =
      rw (make_slice-fits 8 hs (stringify_node_ids F hs ++ s) h, fill_ids hs s)

  node_line-append :
      (n : Node) (s : Text)
      → node_line F n ++ s
        ≡ F.marshal_text (F.id n) ++ blank ∷ (encode (F.marshal_binary n) ++ newline ∷ s)
  unfolding node_line printf print_value
  node_line-append n s = simp append_assoc

  read_node_line-back : (n : Node) (s : Text) → read_node_line F (node_line F n ++ s) ≡ (ok n, s)
  unfolding read_node_line node_of_fields unmarshal_hash node_from_base64_url check_id
  read_node_line-back n s = rw (
    node_line-append n s,
    scan_node_line (F.marshal_text (F.id n)) (encode (F.marshal_binary n)) s
        (marshal-IsWord (F.id n))
        (encode-IsWord (F.marshal_binary n) (node-ne-nil n) (node-bytes n)),
    unmarshal-marshal (F.id n),
    decode-encode (F.marshal_binary n) (node-bytes n),
    unmarshal-node n,
    (equals_iff (F.id n) (F.id n)).1 refl,
  )

  fill_nodes :
      (ns : List Node) (s : Text)
      → fill (read_node_line F) (length ns) (stringify_nodes F ns ++ s) ≡ (ok ns, s)
  unfolding fill stringify_nodes
  fill_nodes [] s = refl
  fill_nodes (n ∷ ns) s = rw (
    append_assoc (node_line F n) (stringify_nodes F ns) s,
    read_node_line-back n (stringify_nodes F ns ++ s),
    fill_nodes ns s,
  )

  -- The nodes of a response or an announcement are read back.
  pub read_node_lines-stringify :
      (ns : List Node) (s : Text)
      → FitsSlice 16 ns
      → read_node_lines F (pos (length ns)) (stringify_nodes F ns ++ s) ≡ (ok ns, s)
  unfolding read_node_lines
  read_node_lines-stringify ns s h =
      rw (make_slice-fits 16 ns (stringify_nodes F ns ++ s) h, fill_nodes ns s)
