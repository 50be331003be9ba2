-- ===== src/Base/Reports.antt =====
-- Validators that collect violations and report them in a fixed order.
use Prim.Native.Nat.{ℕ}
use mathlib.Core.Path.{◌≡◌, refl}
use mathlib.Core.Logic.{◌↔◌, inl, inr}
use mathlib.Core.Bool.{Bool, true, false}
use mathlib.Core.List.{List, [], ◌∷◌, ◌++◌}
use native.Mathlib.Omega.{arith}
use vocab_system.Base.Booleans.{◌==◌, Bool-cases}
use vocab_system.Base.Lists.{any}

module _ {A : Type 0} where
  abbrev pub keep_if : Bool → A → List A → List A
  keep_if true a l = a ∷ l
  keep_if false a l = l

  -- Each condition with the code that is discovered where it fails: the codes of those that fail.
  unfoldable pub failed : List (Bool × A) → List A
  failed [] = []
  failed ((true, a) ∷ l) = failed l
  failed ((false, a) ∷ l) = a ∷ failed l

  abbrev pub AllHold : List (Bool × A) → Type 0
  AllHold [] = Unit
  AllHold ((b, a) ∷ l) = (b ≡ true) × AllHold l

  pub failed-nil : (l : List (Bool × A)) → (failed l ≡ []) ↔ AllHold l
  unfolding failed
  failed-nil [] = (λ _. tt, λ _. refl)
  failed-nil ((true, a) ∷ l) = (λ h. (refl, (failed-nil l).0 h), λ (_, h). (failed-nil l).1 h)
  failed-nil ((false, a) ∷ l) = (λ h. absurd (cc), λ (h, _). absurd (cc))

  pub AllHold-append : (l m : List (Bool × A)) → AllHold (l ++ m) ↔ (AllHold l × AllHold m)
  AllHold-append [] m = (λ h. (tt, h), λ (_, h). h)
  AllHold-append ((b, a) ∷ l) m = (
    λ (h, hs). ((h, ((AllHold-append l m).0 hs).0), ((AllHold-append l m).0 hs).1),
    λ ((h, hs), ms). (h, (AllHold-append l m).1 (hs, ms)),
  )

-- A code is told apart by its place in the order.
module _ {A : Type 0} (index : A → ℕ) where
  abbrev same : A → A → Bool
  same a b = index a == index b

  -- `tuple(code for code in codes if code in discovered)`
  unfoldable pub in_code_order : List A → List A → List A
  in_code_order [] discovered = []
  in_code_order (c ∷ cs) discovered =
      keep_if (any (same c) discovered) c (in_code_order cs discovered)

  in_code_order-nil : (cs : List A) → in_code_order cs [] ≡ []
  unfolding in_code_order
  in_code_order-nil [] = refl
  in_code_order-nil (c ∷ cs) = in_code_order-nil cs

  -- A discovered code is reported.
  in_code_order-cons :
      (cs : List A) (d : A) (l : List A)
      → any (same d) cs ≡ true
      → ¬ (in_code_order cs (d ∷ l) ≡ [])
  unfolding in_code_order
  in_code_order-cons [] d l h e = absurd (cc)
  in_code_order-cons (c ∷ cs) d l h e = elim (Bool-cases (any (same c) (d ∷ l))) [
    | inl reported ↦ absurd (cc (rw (reported, keep_if) at e))
    | inr other ↦ in_code_order-cons cs d l (later other) (rw (other, keep_if) at e)
  ]
    where
      later : any (same c) (d ∷ l) ≡ false → any (same d) cs ≡ true
      later q = ground arith

  module _ (codes : List A) (listed : (d : A) → any (same d) codes ≡ true) where
    -- Nothing is reported exactly where nothing is discovered.
    pub in_code_order-nil_iff : (d : List A) → (in_code_order codes d ≡ []) ↔ (d ≡ [])
    in_code_order-nil_iff [] = (λ _. refl, λ _. in_code_order-nil codes)
    in_code_order-nil_iff (d ∷ l) =
        (λ h. absurd (in_code_order-cons codes d l (listed d) h), λ h. absurd (cc))

    -- Nothing is reported exactly where every condition holds.
    pub reported_iff : (l : List (Bool × A)) → (in_code_order codes (failed l) ≡ []) ↔ AllHold l
    reported_iff l = (
      λ h. (failed-nil l).0 ((in_code_order-nil_iff (failed l)).0 h),
      λ h. (in_code_order-nil_iff (failed l)).1 ((failed-nil l).1 h),
    )
