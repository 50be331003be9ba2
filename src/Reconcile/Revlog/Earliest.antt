-- ===== src/Reconcile/Revlog/Earliest.antt =====
-- The reviews that a summary picks.
use vocab_system.Base.{
  ℕ, ◌≤◌, ◌<◌, ◌≡◌, refl, ap, ◌∙◌, ◌⊎◌, inl, inr, Bool, true, some, List, [], ◌∷◌, In, All, leb,
  ltb, Bool-cases, arith,
}
use vocab_system.Reconcile.Revlog.{
  Parsed, insert_parsed, sort_parsed, is_lifecycle, keep, first_after, first_revlog_id_after,
  summary_of, summarize,
}

-- No later review has a smaller id.
abbrev Ordered : List Parsed → Type 0
Ordered [] = Unit
Ordered (p ∷ l) = All (λ (q : Parsed). p.review_id ≤ q.review_id) l × Ordered l

All-le :
    (n m : ℕ) (l : List Parsed)
    → n ≤ m
    → All (λ (q : Parsed). m ≤ q.review_id) l
    → All (λ (q : Parsed). n ≤ q.review_id) l
All-le n m [] h a = tt
All-le n m (q ∷ l) h (x, a) = (omega (arith, h, x), All-le n m l h a)

insert_parsed-All :
    (n : ℕ) (p : Parsed) (l : List Parsed)
    → n ≤ p.review_id
    → All (λ (q : Parsed). n ≤ q.review_id) l
    → All (λ (q : Parsed). n ≤ q.review_id) (insert_parsed p l)
unfolding insert_parsed
insert_parsed-All n p [] h a = (h, tt)
insert_parsed-All n p (q ∷ l) h (x, a) = elim (Bool-cases (leb p.review_id q.review_id)) [
  | inl e ↦ rw e (h, (x, a))
  | inr e ↦ rw e (x, insert_parsed-All n p l h a)
]

insert_parsed-Ordered : (p : Parsed) (l : List Parsed) → Ordered l → Ordered (insert_parsed p l)
unfolding insert_parsed
insert_parsed-Ordered p [] h = (tt, tt)
insert_parsed-Ordered p (q ∷ l) (a, h) = elim (Bool-cases (leb p.review_id q.review_id)) [
  | inl e ↦
      let le : p.review_id ≤ q.review_id = ground arith in
      rw e ((le, All-le p.review_id q.review_id l le a), (a, h))
  | inr e ↦
      let ge : q.review_id ≤ p.review_id = ground arith in
      rw e (insert_parsed-All q.review_id p l ge a, insert_parsed-Ordered p l h)
]

sort_parsed-Ordered : (l : List Parsed) → Ordered (sort_parsed l)
unfolding sort_parsed
sort_parsed-Ordered [] = tt
sort_parsed-Ordered (p ∷ l) = insert_parsed-Ordered p (sort_parsed l) (sort_parsed-Ordered l)

keep-All :
    (f : Parsed → Bool) (n : ℕ) (l : List Parsed)
    → All (λ (q : Parsed). n ≤ q.review_id) l
    → All (λ (q : Parsed). n ≤ q.review_id) (keep f l)
unfolding keep
keep-All f n [] a = tt
keep-All f n (p ∷ l) (x, a) = elim (Bool-cases (f p)) [
  | inl e ↦ rw e (x, keep-All f n l a)
  | inr e ↦ rw e (keep-All f n l a)
]

keep-Ordered : (f : Parsed → Bool) (l : List Parsed) → Ordered l → Ordered (keep f l)
unfolding keep
keep-Ordered f [] h = tt
keep-Ordered f (p ∷ l) (a, h) = elim (Bool-cases (f p)) [
  | inl e ↦ rw e (keep-All f p.review_id l a, keep-Ordered f l h)
  | inr e ↦ rw e (keep-Ordered f l h)
]

-- The kept and sorted reviews are the kept ones of the list.
insert_parsed-In : (p q : Parsed) (l : List Parsed) → (q ≡ p) ⊎ In q l → In q (insert_parsed p l)
unfolding insert_parsed
insert_parsed-In p q [] m = m
insert_parsed-In p q (r ∷ l) m = elim (Bool-cases (leb p.review_id r.review_id)) [
  | inl e ↦ rw e m
  | inr e ↦ rw e (elim m [
    | inl here ↦ inr (insert_parsed-In p q l (inl here))
    | inr (inl here) ↦ inl here
    | inr (inr there) ↦ inr (insert_parsed-In p q l (inr there))
  ])
]

sort_parsed-In : (q : Parsed) (l : List Parsed) → In q l → In q (sort_parsed l)
unfolding sort_parsed
sort_parsed-In q [] m = absurd m
sort_parsed-In q (p ∷ l) (inl here) = insert_parsed-In p q (sort_parsed l) (inl here)
sort_parsed-In q (p ∷ l) (inr there) =
    insert_parsed-In p q (sort_parsed l) (inr (sort_parsed-In q l there))

keep-In : (f : Parsed → Bool) (q : Parsed) (l : List Parsed) → In q l → f q ≡ true → In q (keep f l)
unfolding keep
keep-In f q [] m h = absurd m
keep-In f q (p ∷ l) m h = elim (Bool-cases (f p)) [
  | inl e ↦ rw e (elim m [ inl here ↦ inl here | inr there ↦ inr (keep-In f q l there h) ])
  | inr e ↦
      rw e (elim m [ inl here ↦ absurd (cc (e, h, ap f here)) | inr there ↦ keep-In f q l there h ])
]

insert_parsed_from : (p q : Parsed) (l : List Parsed) → In q (insert_parsed p l) → (q ≡ p) ⊎ In q l
unfolding insert_parsed
insert_parsed_from p q [] m = m
insert_parsed_from p q (r ∷ l) m = elim (Bool-cases (leb p.review_id r.review_id)) [
  | inl e ↦ rw e at m
  | inr e ↦ elim (split (rw e at m)) [
    | inl here ↦ inr (inl here)
    | inr there ↦ elim (insert_parsed_from p q l there) [
      | inl new ↦ inl new
      | inr old ↦ inr (inr old)
    ]
  ]
]
  where
    split : (q ≡ r) ⊎ In q (insert_parsed p l) → (q ≡ r) ⊎ In q (insert_parsed p l)
    split x = x

sort_parsed_from : (q : Parsed) (l : List Parsed) → In q (sort_parsed l) → In q l
unfolding sort_parsed
sort_parsed_from q [] m = absurd m
sort_parsed_from q (p ∷ l) m = elim (insert_parsed_from p q (sort_parsed l) m) [
  | inl here ↦ inl here
  | inr there ↦ inr (sort_parsed_from q l there)
]

keep_from :
    (f : Parsed → Bool) (q : Parsed) (l : List Parsed) → In q (keep f l) → In q l × (f q ≡ true)
unfolding keep
keep_from f q [] m = absurd m
keep_from f q (p ∷ l) m = elim (Bool-cases (f p)) [
  | inl e ↦ elim (split (rw e at m)) [
    | inl here ↦ (inl here, ap f here ∙ e)
    | inr there ↦ let (inside, kept) = keep_from f q l there in (inr inside, kept)
  ]
  | inr e ↦ let (inside, kept) = keep_from f q l (rw e at m) in (inr inside, kept)
]
  where
    split : (q ≡ p) ⊎ In q (keep f l) → (q ≡ p) ⊎ In q (keep f l)
    split x = x

first_after_least :
    (l : List Parsed) (entry : ℕ) (q : Parsed)
    → Ordered l
    → In q l
    → entry < q.instant
    → (id : ℕ) × (first_after l entry ≡ some id) × (id ≤ q.review_id)
unfolding first_after
first_after_least [] entry q h m late = absurd m
first_after_least (p ∷ l) entry q (a, h) m late = elim (Bool-cases (ltb entry p.instant)) [
  | inl e ↦ (p.review_id, rw e refl, least m)
  | inr e ↦
      let (id, found, le) = first_after_least l entry q h (skip m (ground arith)) late in
      (id, rw e found, le)
]
  where
    least : In q (p ∷ l) → p.review_id ≤ q.review_id
    least (inl here) = omega (arith, ap (λ (x : Parsed). x.review_id) here)
    least (inr there) = among l a there
      where
        among :
            (k : List Parsed)
            → All (λ (x : Parsed). p.review_id ≤ x.review_id) k
            → In q k
            → p.review_id ≤ q.review_id
        among [] b n = absurd n
        among (x ∷ k) (y, b) (inl here) = omega (arith, y, ap (λ (z : Parsed). z.review_id) here)
        among (x ∷ k) (y, b) (inr there) = among k b there

    skip : In q (p ∷ l) → p.instant ≤ entry → In q l
    skip (inl here) early = absurd (omega (arith, late, early, ap (λ (x : Parsed). x.instant) here))
    skip (inr there) early = there

first_after_from :
    (l : List Parsed) (entry id : ℕ)
    → first_after l entry ≡ some id
    → (p : Parsed) × In p l × (entry < p.instant) × (p.review_id ≡ id)
unfolding first_after
first_after_from [] entry id h = absurd (cc)
first_after_from (p ∷ l) entry id h = elim (Bool-cases (ltb entry p.instant)) [
  | inl e ↦ (p, inl refl, ground arith, same (rw e at h))
  | inr e ↦
      let (q, inside, late, id_same) = first_after_from l entry id (rw e at h) in
      (q, inr inside, late, id_same)
]
  where
    same : some p.review_id ≡ some id → p.review_id ≡ id
    same e = cc

module _ (now : ℕ) (parsed : List Parsed) (entry : ℕ) where
  -- Where a card has a lifecycle review after the entry of an episode, a review id is reported
  -- after that entry, and it is no greater than the id of this review.
  pub first_revlog_id_after_least :
      (q : Parsed)
      → In q parsed
      → is_lifecycle q ≡ true
      → entry < q.instant
      → (id : ℕ) × (first_revlog_id_after
            (summarize now parsed).lifecycle_review_entries
            (some entry)
          ≡ some id)
        × (id ≤ q.review_id)
  unfolding summarize summary_of first_revlog_id_after
  first_revlog_id_after_least q m kind late =
      first_after_least (keep is_lifecycle (sort_parsed parsed)) entry q
        (keep-Ordered is_lifecycle (sort_parsed parsed) (sort_parsed-Ordered parsed))
        (keep-In is_lifecycle q (sort_parsed parsed) (sort_parsed-In q parsed m) kind) late

  -- A review id that is reported after an entry is that of a lifecycle review of the card whose
  -- instant lies after the entry.
  pub first_revlog_id_after_sound :
      (id : ℕ)
      → first_revlog_id_after (summarize now parsed).lifecycle_review_entries (some entry) ≡ some id
      → (p : Parsed) × In p parsed
        × (is_lifecycle p ≡ true)
        × (entry < p.instant)
        × (p.review_id ≡ id)
  unfolding summarize summary_of first_revlog_id_after
  first_revlog_id_after_sound id h =
      let (p, kept, late, same) =
        first_after_from (keep is_lifecycle (sort_parsed parsed)) entry id h in
      let (inside, kind) = keep_from is_lifecycle p (sort_parsed parsed) kept in
      (p, sort_parsed_from p parsed inside, kind, late, same)
