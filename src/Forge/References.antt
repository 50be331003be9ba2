-- ===== src/Forge/References.antt =====
-- vocab/contracts.py: SOURCE_REF_PATTERN, `<kind>:<namespace>:<resource-id>`, over code points.
use vocab_system.Base.{
  ℕ, Bool, true, false, ◌&&◌, ◌||◌, Option, none, some, List, [], ◌∷◌, ◌==◌, all, if◌then◌else◌,
}
use vocab_system.Base.Text.{codes}
use vocab_system.Contracts.Keys.{is_slug_char}

-- `[a-z0-9._-]`
abbrev is_resource_char : ℕ → Bool
unfolding is_slug_char
is_resource_char c = is_slug_char c || c == 46 || c == 95 || c == 45

-- `[a-z0-9][a-z0-9._-]*`
unfoldable pub is_resource : List ℕ → Bool
unfolding is_slug_char
is_resource [] = false
is_resource (c ∷ cs) = is_slug_char c && all is_resource_char cs

-- The namespace, a slug, and the resource behind the colon.
unfoldable pub namespace_rest : Bool → List ℕ → Bool
unfolding is_resource is_slug_char
namespace_rest inside [] = false
namespace_rest inside (c ∷ cs) =
    let longer = namespace_rest true cs in
    let next = namespace_rest false cs in
    if is_slug_char c
    then longer
    else ((inside && c == 45) && next) || ((inside && c == 58) && is_resource cs)

-- What is left of a text behind a prefix.
unfoldable pub after_prefix : List ℕ → List ℕ → Option (List ℕ)
after_prefix [] cs = some cs
after_prefix (p ∷ ps) [] = none
after_prefix (p ∷ ps) (c ∷ cs) = let rest = after_prefix ps cs in if p == c then rest else none

abbrev is_reference_of : Option (List ℕ) → Bool
unfolding namespace_rest
is_reference_of none = false
is_reference_of (some cs) = namespace_rest false cs

-- The kinds are SOURCE_REF_KINDS.
unfoldable pub is_source_ref : List ℕ → Bool
unfolding after_prefix namespace_rest
is_source_ref cs =
    is_reference_of (after_prefix (codes "dictionary:") cs)
    || is_reference_of (after_prefix (codes "corpus:") cs)
