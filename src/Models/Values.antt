-- ===== src/Models/Values.antt =====
-- The JSON values of evidence, of event payloads and of hashed identities. A number that is no
-- natural is a literal.
use vocab_system.Base.{
  ℕ, String, Bool, true, false, ◌&&◌, Option, none, some, List, [], ◌∷◌, all, if◌then◌else◌,
}
use vocab_system.Base.Text.{str_eq, str_in}

mutual
  pub data Json : Type 0 where
    null : Json
    num : ℕ → Json
    flag : Bool → Json
    literal : String → Json
    text : String → Json
    arr : Items → Json
    obj : Fields → Json

  pub data Items : Type 0 where
    nil : Items
    cons : Json → Items → Items

  pub data Fields : Type 0 where
    end : Fields
    field : String → Json → Fields → Fields

abbrev pub texts : List String → Items
texts [] = nil
texts (s ∷ l) = cons (text s) (texts l)

abbrev pub optional_num : Option ℕ → Json
optional_num none = null
optional_num (some n) = num n

abbrev pub text_fields : List (String × String) → Fields
text_fields [] = end
text_fields ((k, v) ∷ l) = field k (text v) (text_fields l)

abbrev pub is_object : Json → Bool
is_object (obj fields) = true
is_object _ = false

-- `payload.get(k)`; a repeated name keeps its last value.
abbrev pub json_field : String → Fields → Option Json
json_field k end = none
json_field k (field j v l) = elim (json_field k l) [
  | some w ↦ some w
  | none ↦ if str_eq j k then some v else none
]

abbrev pub field_names : Fields → List String
field_names end = []
field_names (field k v l) = k ∷ field_names l

-- Equality of two sets of texts.
abbrev pub same_texts : List String → List String → Bool
same_texts a b = all (λ s. str_in s b) a && all (λ s. str_in s a) b
