-- ===== src/Contracts/Keys/Laws.antt =====
-- A Unit key is a lemma slug and a sense slug, and determines both.
use vocab_system.Base.{
  ℕ, ◌≡◌, refl, ap, Bool, true, false, List, [], ◌∷◌, ◌++◌, ◌==◌, arith, inl, inr, Bool-cases,
}
use vocab_system.Contracts.Keys.{
  is_slug_char, slug_rest, is_slug, key_sense, key_rest, is_unit_key, proposed_unit_key,
}

key_rest-append :
    (inside : Bool) (a b : List ℕ)
    → slug_rest inside a ≡ true
    → is_slug b ≡ true
    → key_rest inside (a ++ (58 ∷ 58 ∷ b)) ≡ true
unfolding key_rest slug_rest key_sense is_slug_char
key_rest-append inside [] b ha hb = ground arith
key_rest-append inside (c ∷ a) b ha hb =
    ground (arith, key_rest-append true a b, key_rest-append false a b)

-- Two slugs compose a valid Unit key.
pub proposed_unit_key-valid :
    (a b : List ℕ)
    → is_slug a ≡ true
    → is_slug b ≡ true
    → is_unit_key (proposed_unit_key a b) ≡ true
unfolding is_unit_key is_slug proposed_unit_key
proposed_unit_key-valid a b = key_rest-append false a b

-- The rest of a key, split at the separator.
pub record KeyParts (inside : Bool) (k : List ℕ) : Type 0 where
  pub lemma : List ℕ
  pub sense : List ℕ
  pub lemma_slug : slug_rest inside lemma ≡ true
  pub sense_slug : is_slug sense ≡ true
  pub whole : k ≡ proposed_unit_key lemma sense

KeyParts-cons_char :
    (inside : Bool) (c : ℕ) (k : List ℕ)
    → is_slug_char c ≡ true
    → KeyParts true k
    → KeyParts inside (c ∷ k)
unfolding slug_rest proposed_unit_key
KeyParts-cons_char inside c k h p = record {
  lemma = c ∷ p.lemma;
  sense = p.sense;
  lemma_slug = rw h p.lemma_slug;
  sense_slug = p.sense_slug;
  whole = ap (λ t. c ∷ t) p.whole;
}

KeyParts-cons_hyphen :
    (c : ℕ) (k : List ℕ)
    → is_slug_char c ≡ false
    → (c == 45) ≡ true
    → KeyParts false k
    → KeyParts true (c ∷ k)
unfolding slug_rest proposed_unit_key
KeyParts-cons_hyphen c k h e p = record {
  lemma = c ∷ p.lemma;
  sense = p.sense;
  lemma_slug = rw (h, e) p.lemma_slug;
  sense_slug = p.sense_slug;
  whole = ap (λ t. c ∷ t) p.whole;
}

KeyParts-separator :
    (c : ℕ) (k : List ℕ) → (c == 58) ≡ true → key_sense k ≡ true → KeyParts true (c ∷ k)
unfolding slug_rest proposed_unit_key key_sense
KeyParts-separator c [] e h = cc
KeyParts-separator c (d ∷ k) e h = record {
  lemma = [];
  sense = k;
  lemma_slug = refl;
  sense_slug = ground arith;
  whole = ground arith;
}

KeyParts-step :
    (inside : Bool) (c : ℕ) (k : List ℕ)
    → (key_rest true k ≡ true → KeyParts true k)
    → (key_rest false k ≡ true → KeyParts false k)
    → key_rest inside (c ∷ k) ≡ true
    → KeyParts inside (c ∷ k)
unfolding key_rest
KeyParts-step inside c k on_char on_hyphen h = elim (Bool-cases (is_slug_char c)) [
  | inl char ↦ KeyParts-cons_char inside c k char (on_char (rw char at h))
  | inr other ↦ elim (Bool-cases (c == 45)) [
    | inl hyphen ↦ elim (Bool-cases inside) [
      | inl e ↦ rw e (KeyParts-cons_hyphen c k other hyphen (on_hyphen (ground arith)))
      | inr e ↦ absurd (ground arith)
    ]
    | inr joined ↦ elim (Bool-cases inside) [
      | inl e ↦ rw e (KeyParts-separator c k (ground arith) (ground arith))
      | inr e ↦ absurd (ground arith)
    ]
  ]
]

key_rest-KeyParts : (inside : Bool) (k : List ℕ) → key_rest inside k ≡ true → KeyParts inside k
unfolding key_rest
key_rest-KeyParts inside [] h = absurd (ground arith)
key_rest-KeyParts inside (c ∷ k) h =
    KeyParts-step inside c k (key_rest-KeyParts true k) (key_rest-KeyParts false k) h

-- Every accepted Unit key is a lemma slug, the separator and a sense slug.
pub is_unit_key-KeyParts : (k : List ℕ) → is_unit_key k ≡ true → KeyParts false k
unfolding is_unit_key
is_unit_key-KeyParts k h = key_rest-KeyParts false k h

-- Slugs hold no colon, so the separator is found.
slug_split :
    (i j : Bool) (a b a' b' : List ℕ)
    → slug_rest i a ≡ true
    → slug_rest j a' ≡ true
    → proposed_unit_key a b ≡ proposed_unit_key a' b'
    → (a ≡ a') × (b ≡ b')
unfolding slug_rest is_slug_char proposed_unit_key
slug_split i j [] b [] b' h h' e = ground arith
slug_split i j [] b (c ∷ a') b' h h' e = ground arith
slug_split i j (c ∷ a) b [] b' h h' e = ground arith
slug_split i j (c ∷ a) b (d ∷ a') b' h h' e =
    ground (arith, slug_split true true a b a' b', slug_split false false a b a' b')

-- A Unit key determines its two parts: no other lemma slug and sense compose the same key.
pub proposed_unit_key-injective :
    (a b a' b' : List ℕ)
    → is_slug a ≡ true
    → is_slug a' ≡ true
    → proposed_unit_key a b ≡ proposed_unit_key a' b'
    → (a ≡ a') × (b ≡ b')
unfolding is_slug
proposed_unit_key-injective a b a' b' h h' e = slug_split false false a b a' b' h h' e
