-- ===== src/Example.antt =====
-- A small forest that meets the laws, at which the theorems are applied: node n has the hash n + 1,
-- its parent is node n - 1, node 0 is an identity, node 1 a community, node 9 of no known type, and
-- every other one a reply in the community of node 1.
use sprout_go.Base.{
  ℕ, zero, suc, ◌+◌, ◌≡◌, ◌≢◌, refl, Option, none, some, List, [], ◌∷◌, arith, ◌==◌, ==_iff,
  if◌then◌else◌, length, Text, All, Eq,
}
use sprout_go.Fmt.Space.{IsWord, IsInk, digit_is_ink}
use sprout_go.Fmt.Number.{show_nat, value}
use sprout_go.Fmt.NumberBack.{
  IsDigit, value-show_nat, show_nat-digits, show_nat-StartsDigit, StartsInk-digit,
}
use sprout_go.Base64.{IsByte}
use sprout_go.Forest.{Shape, identity, community, reply, other, Forest, ForestLaws}

abbrev zeros : ℕ → List ℕ
zeros zero = []
zeros (suc n) = 0 ∷ zeros n

abbrev node_of_bytes : List ℕ → Option ℕ
node_of_bytes [] = none
node_of_bytes (b ∷ bs) = some (length bs)

abbrev example_shape : ℕ → Shape ℕ
example_shape n =
    if n == 0 then identity else if n == 1 then community 1 else if n == 9 then other else reply 1 2

abbrev pub forest : Forest
forest = record {
  Hash = ℕ;
  Node = ℕ;
  equals = ◌==◌;
  null_hash = 0;
  marshal_text = show_nat;
  hash_string = show_nat;
  unmarshal_text = λ t. some (value 0 t);
  id = λ n. n + 1;
  parent_id = λ n. n;
  tree_depth = λ n. n;
  created_at = λ n. n;
  shape = example_shape;
  marshal_binary = λ n. zeros (suc n);
  unmarshal_binary_node = node_of_bytes;
  node_type_bits = 8;
  node_type_community = 1;
}

length-zeros : (n : ℕ) → length (zeros n) ≡ n
length-zeros zero = refl
length-zeros (suc n) = omega (arith, length-zeros n)

zeros-IsByte : (n : ℕ) → All IsByte (zeros n)
zeros-IsByte zero = tt
zeros-IsByte (suc n) = (omega arith, zeros-IsByte n)

digits_are-IsInk : (s : Text) → All IsDigit s → All IsInk s
digits_are-IsInk [] h = tt
digits_are-IsInk (c ∷ s) h = (digit_is_ink c (ground arith) (ground arith), digits_are-IsInk s h.1)

show_nat-IsWord : (n : ℕ) → IsWord (show_nat n)
show_nat-IsWord n = (
  StartsInk-digit (show_nat n) (show_nat-StartsDigit n),
  digits_are-IsInk (show_nat n) (show_nat-digits n),
)

some-value : (n : ℕ) → some (value 0 (show_nat n)) ≡ some n
some-value n = rw (value-show_nat n)

some-length : (n : ℕ) → node_of_bytes (zeros (suc n)) ≡ some n
some-length n = rw (length-zeros n)

cons_not_nil : (n : ℕ) → zeros (suc n) ≢ []
cons_not_nil n e = cc

pub forest_laws : ForestLaws forest
forest_laws = record {
  equals_iff = ==_iff;
  unmarshal-marshal = some-value;
  unmarshal-string = some-value;
  marshal-IsWord = show_nat-IsWord;
  string-IsWord = show_nat-IsWord;
  unmarshal-node = some-length;
  node-bytes = λ n. zeros-IsByte (suc n);
  node-ne-nil = cons_not_nil;
}

instance abbrev pub hash_eq : Eq ℕ
hash_eq = record { beq = ◌==◌; beq_iff = ==_iff }
