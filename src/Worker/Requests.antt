-- ===== src/Worker/Requests.antt =====
-- Requests and their replies, apart from the IDs, and what a connection has written when it has sent
-- some.
use mathlib.Core.List.{append_assoc, append-nil}
use sprout_go.Base.{◌≡◌, ◌∙◌, refl, sym, ap, List, [], ◌∷◌, ◌++◌, Text}
use sprout_go.Conn.Send.{Wakeup, replied, status_ok}
use sprout_go.Base.Int.{ℤ, pos, succ_int}
use sprout_go.Forest.{Forest}
use sprout_go.Conn.State.{Conn, Reply, is_response, is_status}
use sprout_go.Conn.Parse.{
  Message, list_message, ancestry_message, leaves_of_message, subscribe_message, announce_message,
}
use sprout_go.Conn.Wire.{message_text}

-- A request, under whatever ID, and the reply that the worker is woken by.
pub record Exchange (F : Forest) : Type 0 where
  pub asks : ℤ → Message F.Hash F.Node
  pub answer : Reply F.Node

module _ (F : Forest) where
  abbrev pub wakes : List (Exchange F) → List (Wakeup F.Node)
  wakes [] = []
  wakes (x ∷ xs) = replied x.answer ∷ wakes xs

  -- The text of the requests, under IDs that follow each other.
  abbrev pub texts : ℤ → List (Exchange F) → Text
  texts i [] = []
  texts i (x ∷ xs) = message_text F (x.asks i) ++ texts (succ_int i) xs

  abbrev pub id_after : ℤ → List (Exchange F) → ℤ
  id_after i [] = i
  id_after i (x ∷ xs) = id_after (succ_int i) xs

  -- A connection has written these requests, and nothing else, and has become another.
  abbrev pub Wrote : Conn F.Node → List (Exchange F) → Conn F.Node → Type 0
  Wrote c xs d =
      (d.next_message_id ≡ id_after c.next_message_id xs)
      × (d.output ≡ c.output ++ texts c.next_message_id xs)

  pub wakes-append : (xs ys : List (Exchange F)) → wakes (xs ++ ys) ≡ wakes xs ++ wakes ys
  wakes-append [] ys = refl
  wakes-append (x ∷ xs) ys = ap (λ ks. replied x.answer ∷ ks) (wakes-append xs ys)

  id_after-append :
      (i : ℤ) (xs ys : List (Exchange F)) → id_after i (xs ++ ys) ≡ id_after (id_after i xs) ys
  id_after-append i [] ys = refl
  id_after-append i (x ∷ xs) ys = id_after-append (succ_int i) xs ys

  texts-append :
      (i : ℤ) (xs ys : List (Exchange F))
      → texts i (xs ++ ys) ≡ texts i xs ++ texts (id_after i xs) ys
  texts-append i [] ys = refl
  texts-append i (x ∷ xs) ys =
      ap (λ t. message_text F (x.asks i) ++ t) (texts-append (succ_int i) xs ys)
      ∙ sym (append_assoc (message_text F (x.asks i)) (texts (succ_int i) xs) _)

  pub nothing_written : (c : Conn F.Node) → Wrote c [] c
  nothing_written c = (refl, sym (append-nil c.output))

  pub one_written :
      (x : Exchange F) (c d : Conn F.Node)
      → (d.next_message_id ≡ succ_int c.next_message_id)
        × (d.output ≡ c.output ++ message_text F (x.asks c.next_message_id))
      → Wrote c (x ∷ []) d
  one_written x c d (i, o) = (i, o ∙ ap (λ t. c.output ++ t) (sym (append-nil _)))

  pub written_after :
      (xs ys : List (Exchange F)) (c d e : Conn F.Node)
      → Wrote c xs d
      → Wrote d ys e
      → Wrote c (xs ++ ys) e
  written_after xs ys c d e (i, o) (j, p) = (
    j ∙ ap (λ k. id_after k ys) i ∙ sym (id_after-append c.next_message_id xs ys),
    p
        ∙ ap (λ k. d.output ++ texts k ys) i
        ∙ ap (λ t. t ++ texts (id_after c.next_message_id xs) ys) o
        ∙ append_assoc c.output (texts c.next_message_id xs) _
        ∙ ap (λ t. c.output ++ t) (sym (texts-append c.next_message_id xs ys)),
  )

  open F use {Node, id, tree_depth, node_type_community}

  -- The requests of BootstrapLocalStore.
  abbrev pub listing : ℤ → List Node → Exchange F
  listing quantity ns = record {
    asks = λ i. list_message i node_type_community quantity;
    answer = is_response ns;
  }

  abbrev pub subscription : Node → Exchange F
  subscription n = record { asks = λ i. subscribe_message i (id n); answer = is_status status_ok }

  abbrev pub leaves_request : Node → ℤ → List Node → Exchange F
  leaves_request n quantity leaves = record {
    asks = λ i. leaves_of_message i (id n) quantity;
    answer = is_response leaves;
  }

  abbrev pub announcement : List Node → Exchange F
  announcement ns = record { asks = λ i. announce_message i ns; answer = is_status status_ok }

  abbrev pub ancestry_request : Node → List Node → Exchange F
  ancestry_request n ancestors = record {
    asks = λ i. ancestry_message i (id n) (pos (tree_depth n));
    answer = is_response ancestors;
  }
