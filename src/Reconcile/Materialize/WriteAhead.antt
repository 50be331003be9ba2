-- ===== src/Reconcile/Materialize/WriteAhead.antt =====
-- The write-ahead protocol: whatever fails, the log has a prefix of the PREPARE records and then of
-- the COMMIT records, and no COMMIT record before Anki has shown the new state.
use vocab_system.Base.{
  ◌≡◌, refl, sym, ap, ◌∙◌, ◌⊎◌, inl, inr, String, Bool, true, false, List, [], ◌∷◌, ◌++◌, All, map,
  Result, ok, err,
}
use mathlib.Core.List.{append_assoc, append-nil}
use vocab_system.Base.Int.{ℤ}
use vocab_system.Base.Text.{str_in}
use vocab_system.Models.{PlannedTransition}
use vocab_system.Models.Values.{Json}
use vocab_system.Journal.Records.{Phase, prepare, commit}
use vocab_system.Reconcile.Materialize.Effects.{Port, Step, Failure, append_failed, after, call}
use vocab_system.Reconcile.Materialize.{state_payload, append_state_event, append_all}
use vocab_system.Reconcile.Materialize.Readback.{
  View, Untouched, IsTruthful, HasValues, AreSuspended,
}

-- The events of the plans in one phase.
abbrev pub written : Phase → List PlannedTransition → List Json
written phase plans = map (λ p. state_payload p phase) plans

-- The events of a run, by its result; `applied` holds once COMMIT records may be written.
pub data Written (plans : List PlannedTransition) (applied : Type 0)
    : Result Failure (Unit {0}) → List Json → Type 0 where
  preparing :
      {e : Failure} (now later : List PlannedTransition)
      → plans ≡ now ++ later
      → Written plans applied (err e) (written prepare now)
  committing :
      {e : Failure} (now later : List PlannedTransition)
      → applied
      → plans ≡ now ++ later
      → Written plans applied (err e) (written prepare plans ++ written commit now)
  finished : applied → Written plans applied (ok tt) (written prepare plans ++ written commit plans)

module _ {W : Type 0} (port : Port W) (v : View W) (note : ℤ) (t : IsTruthful port v note)
    (unit_key : String) where
  -- What appending the records of one phase has done.
  abbrev pub Appended : Phase → List PlannedTransition → W → Result Failure (Unit {0}) × W → Type 0
  Appended phase plans w (ok a, w') =
      (v.events w' ≡ v.events w ++ written phase plans) × Untouched v w w'
  Appended phase plans w (err e, w') =
      (now : List PlannedTransition) × (later : List PlannedTransition) × (plans ≡ now ++ later)
      × (v.events w' ≡ v.events w ++ written phase now)
      × Untouched v w w'

  untouched : (w : W) → Untouched v w w
  untouched w = record { values = λ k. refl; queues = λ c. refl }

  Untouched-twice : (w w' w'' : W) → Untouched v w w' → Untouched v w' w'' → Untouched v w w''
  Untouched-twice w w' w'' a b = record {
    values = λ k. b.values k ∙ a.values k;
    queues = λ c. b.queues c ∙ a.queues c;
  }

  -- What appending one record has done.
  abbrev pub One : Json → W → Result Failure (Unit {0}) × W → Type 0
  One j w (ok a, w') = (v.events w' ≡ v.events w ++ (j ∷ [])) × Untouched v w w'
  One j w (err e, w') =
      ((v.events w' ≡ v.events w) ⊎ (v.events w' ≡ v.events w ++ (j ∷ []))) × Untouched v w w'

  pub append_state_event-One :
      (p : PlannedTransition) (phase : Phase) (w : W)
      → One (state_payload p phase) w (append_state_event port unit_key p phase w)
  unfolding append_state_event
  append_state_event-One p phase w = on (port.log unit_key (state_payload p phase) w) refl
    where
      on :
          (q : Bool × W)
          → port.log unit_key (state_payload p phase) w ≡ q
          → One (state_payload p phase) w (call append_failed (λ _. q) w)
      on (true, w') e = t.logged unit_key (state_payload p phase) w w' e
      on (false, w') e = t.log_failed unit_key (state_payload p phase) w w' e

  Appended-cons :
      (phase : Phase) (p : PlannedTransition) (l : List PlannedTransition) (w w' : W)
      (q : Result Failure (Unit {0}) × W)
      → v.events w' ≡ v.events w ++ (state_payload p phase ∷ [])
      → Untouched v w w'
      → Appended phase l w' q
      → Appended phase (p ∷ l) w q
  Appended-cons phase p l w w' (ok a, w'') added same (events, same') = (
    events
        ∙ ap (λ x. x ++ written phase l) added
        ∙ append_assoc (v.events w) (state_payload p phase ∷ []) (written phase l),
    Untouched-twice w w' w'' same same',
  )
  Appended-cons phase p l w w' (err e, w'') added same (now, later, split, events, same') = (
    p ∷ now,
    later,
    ap (λ x. p ∷ x) split,
    events
        ∙ ap (λ x. x ++ written phase now) added
        ∙ append_assoc (v.events w) (state_payload p phase ∷ []) (written phase now),
    Untouched-twice w w' w'' same same',
  )

  -- The record of one plan, and then those of the rest.
  pub Appended-after :
      (phase : Phase) (p : PlannedTransition) (l : List PlannedTransition) (w : W)
      (r : Result Failure (Unit {0}) × W) (m : Step W (Unit {0}))
      → One (state_payload p phase) w r
      → ((w' : W) → Appended phase l w' (m w'))
      → Appended phase (p ∷ l) w (after r (λ _. m))
  Appended-after phase p l w (err e, w') m (inl none_added, same) rest =
      ([], p ∷ l, refl, none_added ∙ sym (append-nil _), same)
  Appended-after phase p l w (err e, w') m (inr added, same) rest = (p ∷ [], l, refl, added, same)
  Appended-after phase p l w (ok a, w') m (added, same) rest =
      Appended-cons phase p l w w' (m w') added same (rest w')

  pub append_all-Appended :
      (phase : Phase) (ids : List String) (plans : List PlannedTransition)
      → All (λ p. str_in p.transition_id ids ≡ true) plans
      → (w : W) → Appended phase plans w (append_all port unit_key phase ids plans w)
  unfolding append_all
  append_all-Appended phase ids [] h w = (sym (append-nil _), untouched w)
  append_all-Appended phase ids (p ∷ l) (here, there) w = rw here (
      Appended-after phase p l w (append_state_event port unit_key p phase w)
        (append_all port unit_key phase ids l) (append_state_event-One p phase w)
        (append_all-Appended phase ids l there))

  pub One-Appended :
      (phase : Phase) (p : PlannedTransition) (w : W) (q : Result Failure (Unit {0}) × W)
      → One (state_payload p phase) w q
      → Appended phase (p ∷ []) w q
  One-Appended phase p w (ok a, w') h = h
  One-Appended phase p w (err e, w') (inl none_added, same) =
      ([], p ∷ [], refl, none_added ∙ sym (append-nil _), same)
  One-Appended phase p w (err e, w') (inr added, same) = (p ∷ [], [], refl, added, same)

pub HasValues-kept :
    {W : Type 0} (v : View W) (w w' : W) (l : List (String × String))
    → ((k : String) → v.value w' k ≡ v.value w k)
    → HasValues v w l
    → HasValues v w' l
HasValues-kept v w w' [] keeps h = tt
HasValues-kept v w w' ((k, x) ∷ l) keeps (here, there) =
    (keeps k ∙ here, HasValues-kept v w w' l keeps there)

pub AreSuspended-kept :
    {W : Type 0} (v : View W) (w w' : W) (cards : List ℤ)
    → ((c : ℤ) → v.queue w' c ≡ v.queue w c)
    → AreSuspended v w cards
    → AreSuspended v w' cards
AreSuspended-kept v w w' [] keeps h = tt
AreSuspended-kept v w w' (c ∷ cards) keeps (here, there) =
    (keeps c ∙ here, AreSuspended-kept v w w' cards keeps there)

-- What a run has done to the log and to Anki, seen from the world before it.
abbrev pub WritesAhead :
    {W : Type 0}
    → View W
    → W
    → List PlannedTransition
    → (W → Type 0)
    → Result Failure (Unit {0}) × W
    → Type 0
WritesAhead v w plans applied (r, w') =
    (s : List Json) × (v.events w' ≡ v.events w ++ s) × Written plans (applied w') r s

module _ {W : Type 0} (port : Port W) (v : View W) (note : ℤ) (t : IsTruthful port v note)
    (unit_key : String) (plans : List PlannedTransition) (applied : W → Type 0)
    (stable : (w w' : W) → Untouched v w w' → applied w → applied w') (w : W) where
  pub prepared-WritesAhead :
      (q : Result Failure (Unit {0}) × W) (m : Step W (Unit {0}))
      → Appended port v note t unit_key prepare plans w q
      → ((w' : W)
          → v.events w' ≡ v.events w ++ written prepare plans
          → WritesAhead v w plans applied (m w'))
      → WritesAhead v w plans applied (after q (λ _. m))
  prepared-WritesAhead (ok a, w') m (events, same) rest = rest w' events
  prepared-WritesAhead (err e, w') m (now, later, split, events, same) rest =
      (written prepare now, events, preparing now later split)

  -- A failure between the two phases leaves all PREPARE records.
  pub stopped-WritesAhead :
      (w' w'' : W) (e : Failure)
      → v.events w' ≡ v.events w ++ written prepare plans
      → v.events w'' ≡ v.events w'
      → WritesAhead v w plans applied (err e, w'')
  stopped-WritesAhead w' w'' e events same =
      (written prepare plans, same ∙ events, preparing plans [] (sym (append-nil plans)))

  pub committed-WritesAhead :
      (w' w'' : W) (q : Result Failure (Unit {0}) × W)
      → v.events w' ≡ v.events w ++ written prepare plans
      → v.events w'' ≡ v.events w'
      → applied w''
      → Appended port v note t unit_key commit plans w'' q
      → WritesAhead v w plans applied q
  committed-WritesAhead w' w'' (ok tt, w₃) events same done (added, untouched) = (
    written prepare plans ++ written commit plans,
    added
        ∙ ap (λ x. x ++ written commit plans) (same ∙ events)
        ∙ append_assoc (v.events w) (written prepare plans) (written commit plans),
    finished (stable w'' w₃ untouched done),
  )
  committed-WritesAhead w' w'' (err e, w₃) events same done (now, later, split, added, untouched) =
      (
        written prepare plans ++ written commit now,
        added
            ∙ ap (λ x. x ++ written commit now) (same ∙ events)
            ∙ append_assoc (v.events w) (written prepare plans) (written commit now),
        committing now later (stable w'' w₃ untouched done) split,
      )
