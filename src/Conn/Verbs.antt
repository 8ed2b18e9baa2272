-- ===== src/Conn/Verbs.antt =====
-- The verbs of the protocol and their formats: sprout.go, the constants and the map `formats`.
use sprout_go.Base.{
  ◌≡◌, refl, Bool, true, false, Option, none, some, List, [], ◌∷◌, ◌==◌, ◌&&◌, if◌then◌else◌, Text,
  codes,
}

pub data Verb : Type 0 where
  version list query ancestry leaves_of subscribe unsubscribe announce response status : Verb

abbrev pub verb_text : Verb → Text
verb_text version = codes "version"
verb_text list = codes "list"
verb_text query = codes "query"
verb_text ancestry = codes "ancestry"
verb_text leaves_of = codes "leaves_of"
verb_text subscribe = codes "subscribe"
verb_text unsubscribe = codes "unsubscribe"
verb_text announce = codes "announce"
verb_text response = codes "response"
verb_text status = codes "status"

-- formats[verb]
abbrev pub formats : Verb → Text
formats version = codes " %d %d.%d\n"
formats list = codes " %d %d %d\n"
formats query = codes " %d %d\n"
formats ancestry = codes " %d %s %d\n"
formats leaves_of = codes " %d %s %d\n"
formats subscribe = codes " %d %s\n"
formats unsubscribe = codes " %d %s\n"
formats announce = codes " %d %d\n"
formats response = codes " %d %d\n"
formats status = codes " %d %d\n"

-- Equality of strings.
unfoldable pub text_eq : Text → Text → Bool
text_eq [] [] = true
text_eq (c ∷ s) (d ∷ t) = c == d && text_eq s t
text_eq _ _ = false

abbrev pub first_match : Text → List Verb → Option Verb
first_match word [] = none
first_match word (v ∷ vs) = if text_eq (verb_text v) word then some v else first_match word vs

-- The cases of the switch in ReadMessage, in their order.
unfoldable pub verb_of_word : Text → Option Verb
verb_of_word word = first_match word (
    version ∷ list ∷ query ∷ ancestry ∷ leaves_of ∷ response ∷ subscribe ∷ unsubscribe ∷ status
    ∷ announce ∷ [])

-- Each verb is recognised by its own text.
pub verb_of_word-verb_text : (v : Verb) → verb_of_word (verb_text v) ≡ some v
unfolding verb_of_word text_eq
verb_of_word-verb_text version = refl
verb_of_word-verb_text list = refl
verb_of_word-verb_text query = refl
verb_of_word-verb_text ancestry = refl
verb_of_word-verb_text leaves_of = refl
verb_of_word-verb_text subscribe = refl
verb_of_word-verb_text unsubscribe = refl
verb_of_word-verb_text announce = refl
verb_of_word-verb_text response = refl
verb_of_word-verb_text status = refl
