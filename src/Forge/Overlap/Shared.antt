-- ===== src/Forge/Overlap/Shared.antt =====
-- The bounds of the source-copy ratio.
use vocab_system.Base.{
  ℕ, ◌+◌, ◌-◌, ◌≤◌, ◌<◌, ◌≡◌, ◌↔◌, refl, sym, ap, ◌∙◌, some, [], ◌∷◌, All, ◌==◌, arith, inl, inr,
  some_inj, Bool-cases,
}
use vocab_system.Forge.Overlap.{Counter, count_of, total, shared_total, source_copy_ratio}

shared_total-total : (m source : Counter) → shared_total m source ≤ total m
unfolding shared_total total
shared_total-total [] source = omega arith
shared_total-total ((k, n) ∷ m) source = ground (arith, shared_total-total m source)

-- The tokens of the context that the source lacks.
abbrev pub lacking : Counter → Counter → ℕ
lacking [] source = 0
lacking ((k, n) ∷ m) source = (n - count_of source k) + lacking m source

shared_total-lacking : (m source : Counter) → shared_total m source + lacking m source ≡ total m
unfolding shared_total total
shared_total-lacking [] source = refl
shared_total-lacking ((k, n) ∷ m) source = ground (arith, shared_total-lacking m source)

-- Every token occurs in the source as often as in the context, at least.
abbrev pub IsCopied : Counter → Counter → Type 0
IsCopied context source = All (λ (k, n). n ≤ count_of source k) context

shared_total-IsCopied : (m source : Counter) → (shared_total m source ≡ total m) ↔ IsCopied m source
unfolding shared_total total
shared_total-IsCopied [] source = (λ _. tt, λ _. refl)
shared_total-IsCopied ((k, n) ∷ m) source =
    let low = shared_total-total m source in
    let (there, back) = shared_total-IsCopied m source in
    (
      λ h. (ground (arith, low, h), there (ground (arith, low, h))),
      λ (here, rest). let same = back rest in ground (arith, here, same),
    )

-- The source-copy ratio of a text has the size of the text as its positive denominator, counts of
-- it all tokens but those that the source lacks, each as often as it is missing there, is at most
-- one, and is one exactly where every token occurs in the source at least as often as in the
-- text.
pub source_copy_ratio-bounds :
    (context source : Counter) (shared size : ℕ)
    → source_copy_ratio context source ≡ some (shared, size)
    → (0 < size)
      × (size ≡ total context)
      × (shared ≤ size)
      × (shared + lacking context source ≡ size)
      × ((shared ≡ size) ↔ IsCopied context source)
unfolding source_copy_ratio
source_copy_ratio-bounds context source shared size h = elim (Bool-cases (total context == 0)) [
  | inl empty ↦ absurd (cc (rw empty at h))
  | inr filled ↦
      let same = some_inj (rw filled at h) in
      let above : shared_total context source ≡ shared = ap (λ p. p.0) same in
      let below : total context ≡ size = ap (λ p. p.1) same in
      let low = shared_total-total context source in
      let (there, back) = shared_total-IsCopied context source in
      (
        ground (arith, below),
        sym below,
        omega (arith, above, below, low),
        omega (arith, above, below, shared_total-lacking context source),
        (λ e. there (above ∙ e ∙ sym below), λ c. sym above ∙ back c ∙ below),
      )
]
