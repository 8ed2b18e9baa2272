-- ===== src/Forest.antt =====
-- What the program uses of the packages forest-go and forest-ex, which are not in the repository:
-- the types of hashes and nodes, and their operations. `Forest` has the operations, and
-- `ForestLaws` the behaviour that some theorems rely on.
use sprout_go.Base.{ℕ, ◌≡◌, ◌≢◌, ◌↔◌, Bool, true, Option, some, List, [], Text, All}
use sprout_go.Fmt.Space.{IsWord}
use sprout_go.Base64.{IsByte}

-- The dynamic type of a node, with the fields that the program reads: the author of a community or
-- a reply, and the community of a reply.
pub data Shape (H : Type 0) : Type 0 where
  identity : Shape H
  community : (author : H) → Shape H
  reply : (author community_id : H) → Shape H
  other : Shape H

pub record Forest : Type 1 where
  -- *fields.QualifiedHash, by value
  pub Hash : Type 0
  -- forest.Node
  pub Node : Type 0
  pub equals : Hash → Hash → Bool
  pub null_hash : Hash
  -- MarshalText, String and UnmarshalText of a hash; `none` is an error
  pub marshal_text : Hash → Text
  pub hash_string : Hash → Text
  pub unmarshal_text : Text → Option Hash
  -- the methods ID, ParentID, TreeDepth and CreatedAt of a node
  pub id : Node → Hash
  pub parent_id : Node → Hash
  pub tree_depth : Node → ℕ
  pub created_at : Node → ℕ
  pub shape : Node → Shape Hash
  -- MarshalBinary, and UnmarshalBinaryNode
  pub marshal_binary : Node → List ℕ
  pub unmarshal_binary_node : List ℕ → Option Node
  -- the width of the unsigned type fields.NodeType
  pub node_type_bits : ℕ
  -- fields.NodeTypeCommunity
  pub node_type_community : ℕ

-- Hashes and nodes are read back from what they are marshalled to, and a marshalled hash is one
-- word. `Equals` decides equality.
pub record ForestLaws (F : Forest) : Type 0 where
  pub equals_iff : (a b : F.Hash) → (F.equals a b ≡ true) ↔ (a ≡ b)
  pub unmarshal-marshal : (h : F.Hash) → F.unmarshal_text (F.marshal_text h) ≡ some h
  pub unmarshal-string : (h : F.Hash) → F.unmarshal_text (F.hash_string h) ≡ some h
  pub marshal-IsWord : (h : F.Hash) → IsWord (F.marshal_text h)
  pub string-IsWord : (h : F.Hash) → IsWord (F.hash_string h)
  pub unmarshal-node : (n : F.Node) → F.unmarshal_binary_node (F.marshal_binary n) ≡ some n
  pub node-bytes : (n : F.Node) → All IsByte (F.marshal_binary n)
  pub node-ne-nil : (n : F.Node) → F.marshal_binary n ≢ []
