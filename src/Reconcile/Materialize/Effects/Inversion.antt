-- ===== src/Reconcile/Materialize/Effects/Inversion.antt =====
-- What a chain of calls that succeeds says of its parts.
use vocab_system.Base.{
  ◌≡◌, refl, ap, Bool, true, false, Option, none, some, Result, ok, err, ok_inj,
}
use vocab_system.Reconcile.Materialize.Effects.{
  Failure, Step, after, stop_if, call, reply, lift, lift_as,
}

module _ {W A B : Type 0} where
  pub after-eq-ok :
      (m : Result Failure A × W) (f : A → Step W B) {b : B} {w' : W}
      → after m f ≡ (ok b, w')
      → (a : A) × (w : W) × (m ≡ (ok a, w)) × (f a w ≡ (ok b, w'))
  after-eq-ok (ok a, w) f h = (a, w, refl, h)
  after-eq-ok (err e, w) f h = absurd (cc (ap (λ q. q.0) h))

module _ {W : Type 0} where
  pub stop_if-eq-ok :
      (b : Bool) (e : Failure) (w : W) {a : Unit {0}} {w' : W}
      → stop_if b e w ≡ (ok a, w')
      → (b ≡ false) × (w ≡ w')
  stop_if-eq-ok true e w h = absurd (cc (ap (λ q. q.0) h))
  stop_if-eq-ok false e w h = (refl, ap (λ q. q.1) h)

  pub call-eq-ok :
      (e : Failure) (f : W → Bool × W) (w : W) {a : Unit {0}} {w' : W}
      → call e f w ≡ (ok a, w')
      → f w ≡ (true, w')
  call-eq-ok e f w {a} {w'} h = on (f w) h
    where
      on : (q : Bool × W) → call e (λ _. q) w ≡ (ok a, w') → q ≡ (true, w')
      on (true, w₁) h = ap (λ q. (true, q.1)) h
      on (false, w₁) h = absurd (cc (ap (λ q. q.0) h))

module _ {W A : Type 0} where
  pub reply-eq-ok :
      (e : Failure) (f : W → Option A × W) (w : W) {a : A} {w' : W}
      → reply e f w ≡ (ok a, w')
      → f w ≡ (some a, w')
  reply-eq-ok e f w {a} {w'} h = on (f w) h
    where
      on : (q : Option A × W) → reply e (λ _. q) w ≡ (ok a, w') → q ≡ (some a, w')
      on (some b, w₁) h = ap (λ q. (some (value b q.0), q.1)) h
        where
          value : A → Result Failure A → A
          value d (ok x) = x
          value d (err e) = d
      on (none, w₁) h = absurd (cc (ap (λ q. q.0) h))

  pub lift-eq-ok :
      (r : Result Failure A) (w : W) {a : A} {w' : W}
      → lift r w ≡ (ok a, w')
      → (r ≡ ok a) × (w ≡ w')
  lift-eq-ok r w h = (ap (λ q. q.0) h, ap (λ q. q.1) h)

  pub lift_as-eq-ok :
      {E : Type 0} (f : E → Failure) (r : Result E A) (w : W) {a : A} {w' : W}
      → lift_as f r w ≡ (ok a, w')
      → r ≡ ok a
  lift_as-eq-ok f (ok x) w h = ap ok (ok_inj (ap (λ q. q.0) h))
  lift_as-eq-ok f (err e) w h = absurd (cc (ap (λ q. q.0) h))
