-- ===== src/Reconcile/Materialize/Readback.antt =====
-- What the steps between PREPARE and COMMIT establish, where Anki reports its state truly.
use vocab_system.Base.{
  &&-true, ◌≡◌, refl, ap, ◌∙◌, ◌⊎◌, inl, inr, String, Bool, true, false, Option, none, some, List,
  [], ◌∷◌, ◌++◌, All, In, Bool-cases, Result, ok, err,
}
use vocab_system.Base.Int.{ℤ, int_eq, int_eq_iff}
use vocab_system.Base.Text.{str_eq, str_eq_iff}
use vocab_system.Models.{Event}
use vocab_system.Models.Values.{Json}
use vocab_system.Reconcile.Revlog.{Review}
use vocab_system.Reconcile.Materialize.Effects.{
  Note, CardRow, Template, Port, Step, Failure, update_refused, update_failed, notes_unread, after,
  stop_if, call, reply,
}
use vocab_system.Reconcile.Materialize.Cards.{queue_suspended}
use vocab_system.Reconcile.Materialize.{
  Updates, find, has_value, shows, refuses, update_note_states, check_note, verify_note_states,
}

-- What can be seen of the world: the events of the log, the fields of the note, and the queues.
pub record View (W : Type 0) : Type 0 where
  pub events : W → List Json
  pub value : W → String → Option String
  pub queue : W → ℤ → Option ℤ

-- A call leaves the fields and the queues as they are.
pub record Untouched {W : Type 0} (v : View W) (w w' : W) : Type 0 where
  pub values : (k : String) → v.value w' k ≡ v.value w k
  pub queues : (c : ℤ) → v.queue w' c ≡ v.queue w c

-- The log appends its record, and a failed append adds it whole or not at all. Only `log` appends,
-- only an update changes fields, and a report is what can be seen after it.
pub record IsTruthful {W : Type 0} (port : Port W) (v : View W) (note : ℤ) : Type 0 where
  pub logged :
      (u : String) (j : Json) (w w' : W)
      → port.log u j w ≡ (true, w')
      → (v.events w' ≡ v.events w ++ (j ∷ [])) × Untouched v w w'
  pub log_failed :
      (u : String) (j : Json) (w w' : W)
      → port.log u j w ≡ (false, w')
      → ((v.events w' ≡ v.events w) ⊎ (v.events w' ≡ v.events w ++ (j ∷ []))) × Untouched v w w'
  pub updated :
      (l : List (String × String)) (w w' : W) (b : Bool)
      → port.update_note_fields note l w ≡ (b, w')
      → v.events w' ≡ v.events w
  pub noted :
      (w w' : W) (o : Option (List Note))
      → port.notes_info note w ≡ (o, w')
      → v.events w' ≡ v.events w
  pub notes_shown :
      (w w' : W) (n : Note) (k : String)
      → port.notes_info note w ≡ (some (n ∷ []), w')
      → n.note_id ≡ note
      → v.value w' k ≡ find k n.fields
  pub carded :
      (ids : List ℤ) (w w' : W) (o : Option (List CardRow))
      → port.cards_info ids w ≡ (o, w')
      → (v.events w' ≡ v.events w) × ((k : String) → v.value w' k ≡ v.value w k)
  pub cards_shown :
      (ids : List ℤ) (w w' : W) (rows : List CardRow) (r : CardRow)
      → port.cards_info ids w ≡ (some rows, w')
      → In r rows
      → v.queue w' r.card_id ≡ some r.queue
  pub suspended :
      (ids : List ℤ) (w w' : W) (o : Option Bool)
      → port.suspend ids w ≡ (o, w')
      → (v.events w' ≡ v.events w) × ((k : String) → v.value w' k ≡ v.value w k)
  pub unsuspended :
      (ids : List ℤ) (w w' : W) (b : Bool)
      → port.unsuspend ids w ≡ (b, w')
      → (v.events w' ≡ v.events w) × ((k : String) → v.value w' k ≡ v.value w k)
  pub snapshot_read :
      (w w' : W) (o : Option (List Template))
      → port.verified_note_type_snapshot w ≡ (o, w')
      → v.events w' ≡ v.events w
  pub revlog_read :
      (ids : List ℤ) (w w' : W) (o : Option (List (ℤ × List Review)))
      → port.get_revlog ids w ≡ (o, w')
      → v.events w' ≡ v.events w
  pub log_read :
      (w w' : W) (o : Option (List Event)) → port.read_strict w ≡ (o, w') → v.events w' ≡ v.events w

-- The fields have the given values; the cards are suspended.
abbrev pub HasValues : {W : Type 0} → View W → W → Updates → Type 0
HasValues v w l = All (λ (k, x). v.value w k ≡ some x) l

abbrev pub AreSuspended : {W : Type 0} → View W → W → List ℤ → Type 0
AreSuspended v w cards = All (λ c. v.queue w c ≡ some queue_suspended) cards

-- A step that appends no event, and on success establishes `Good`.
module _ {W : Type 0} (v : View W) where
  abbrev pub Quiet : {A : Type 0} → W → (A → W → Type 0) → Result Failure A × W → Type 0
  Quiet w Good (ok a, w') = (v.events w' ≡ v.events w) × Good a w'
  Quiet w Good (err e, w') = v.events w' ≡ v.events w

  -- What holds of the rest of a chain holds of the chain.
  pub after_Quiet :
      {A B : Type 0} (w : W) (Good : A → W → Type 0) (Q : Result Failure B × W → Type 0)
      (r : Result Failure A × W) (f : A → Step W B)
      → Quiet w Good r
      → ((a : A) (w' : W) → v.events w' ≡ v.events w → Good a w' → Q (f a w'))
      → ((e : Failure) (w' : W) → v.events w' ≡ v.events w → Q (err e, w'))
      → Q (after r f)
  after_Quiet w Good Q (ok a, w') f h good bad = good a w' h.0 h.1
  after_Quiet w Good Q (err e, w') f h good bad = bad e w' h

  pub Quiet-from :
      {A : Type 0} (Good : A → W → Type 0) (w w' : W)
      → v.events w' ≡ v.events w
      → (r : Result Failure A × W) → Quiet w' Good r
      → Quiet w Good r
  Quiet-from Good w w' same (ok a, w'') h = (h.0 ∙ same, h.1)
  Quiet-from Good w w' same (err e, w'') h = h ∙ same

  pub stop_if-Quiet :
      (b : Bool) (e : Failure) (w : W) → Quiet w (λ _ w'. (b ≡ false) × (w' ≡ w)) (stop_if b e w)
  stop_if-Quiet true e w = refl
  stop_if-Quiet false e w = (refl, (refl, refl))

has_value-some : (o : Option String) (x : String) → has_value o x ≡ true → o ≡ some x
has_value-some none x h = absurd (cc)
has_value-some (some u) x h = ap some ((str_eq_iff u x).0 h)

shows-cons :
    (fields rest : Updates) (k x : String)
    → shows fields ((k, x) ∷ rest) ≡ true
    → (find k fields ≡ some x) × (shows fields rest ≡ true)
unfolding shows
shows-cons fields rest k x h =
    let (found, more) = &&-true (has_value (find k fields) x) (shows fields rest) h in
    (has_value-some (find k fields) x found, more)

shown_values :
    {W : Type 0} (v : View W) (w : W) (fields : Updates)
    → ((k : String) → v.value w k ≡ find k fields)
    → (expected : Updates) → shows fields expected ≡ true
    → HasValues v w expected
shown_values v w fields h [] e = tt
shown_values v w fields h ((k, x) ∷ rest) e =
    let (found, more) = shows-cons fields rest k x e in
    (h k ∙ found, shown_values v w fields h rest more)

module _ {W : Type 0} (port : Port W) (v : View W) (note : ℤ) (t : IsTruthful port v note) where
  pub call-Quiet :
      (e : Failure) (f : W → Bool × W) (w : W)
      → ((b : Bool) (w' : W) → f w ≡ (b, w') → v.events w' ≡ v.events w)
      → Quiet v w (λ _ _. Unit) (call e f w)
  call-Quiet e f w h = on (f w) refl
    where
      on : (q : Bool × W) → f w ≡ q → Quiet v w (λ _ _. Unit) (call e (λ _. q) w)
      on (true, w') p = (h true w' p, tt)
      on (false, w') p = h false w' p

  pub reply-Quiet :
      {A : Type 0} (e : Failure) (f : W → Option A × W) (w : W)
      → ((o : Option A) (w' : W) → f w ≡ (o, w') → v.events w' ≡ v.events w)
      → Quiet v w (λ a w'. f w ≡ (some a, w')) (reply e f w)
  reply-Quiet {A} e f w h = on (f w) refl
    where
      on :
          (q : Option A × W) → f w ≡ q → Quiet v w (λ a w'. f w ≡ (some a, w')) (reply e (λ _. q) w)
      on (some a, w') p = (h (some a) w' p, p)
      on (none, w') p = h none w' p

  pub update_note_states-Quiet :
      (l : Updates) (w : W) → Quiet v w (λ _ _. Unit) (update_note_states port note l w)
  unfolding update_note_states
  update_note_states-Quiet l w =
      after_Quiet v w (λ _ w'. (refuses l ≡ false) × (w' ≡ w)) (Quiet v w (λ _ _. Unit))
        (stop_if (refuses l) update_refused w)
        (λ _. call update_failed (port.update_note_fields note l))
        (stop_if-Quiet v (refuses l) update_refused w)
        (λ _ w' same _.
          Quiet-from v (λ _ _. Unit) w w' same
            (call update_failed (port.update_note_fields note l) w')
            (call-Quiet update_failed (port.update_note_fields note l) w'
              (λ b w'' p. t.updated l w' w'' b p)))
        (λ _ w' same. same)

  check_note-Quiet :
      (expected : Updates) (notes : List Note) (w w' : W)
      → port.notes_info note w ≡ (some notes, w')
      → Quiet v w' (λ _ w''. HasValues v w'' expected) (check_note note expected notes w')
  unfolding check_note
  check_note-Quiet expected [] w w' p = refl
  check_note-Quiet expected (n ∷ m ∷ ns) w w' p = refl
  check_note-Quiet expected (n ∷ []) w w' p = elim (Bool-cases (int_eq n.note_id note)) [
    | inr a ↦ rw a refl
    | inl a ↦ elim (Bool-cases (str_eq n.model_name "VocabularyUnit")) [
      | inr b ↦ rw (a, b) refl
      | inl b ↦ elim (Bool-cases (shows n.fields expected)) [
        | inr c ↦ rw (a, b, c) refl
        | inl c ↦
            rw (a, b, c)
              (
                refl,
                shown_values v w' n.fields
                    (λ k. t.notes_shown w w' n k p ((int_eq_iff n.note_id note).0 a)) expected c,
              )
      ]
    ]
  ]

  pub verify_note_states-Quiet :
      (expected : Updates) (w : W)
      → Quiet v w (λ _ w'. HasValues v w' expected) (verify_note_states port note expected w)
  unfolding verify_note_states
  verify_note_states-Quiet expected w =
      after_Quiet v w (λ notes w'. port.notes_info note w ≡ (some notes, w'))
        (Quiet v w (λ _ w'. HasValues v w' expected)) (reply notes_unread (port.notes_info note) w)
        (λ notes. check_note note expected notes)
        (reply-Quiet notes_unread (port.notes_info note) w (λ o w' p. t.noted w w' o p))
        (λ notes w' same p.
          Quiet-from v (λ _ w''. HasValues v w'' expected) w w' same
            (check_note note expected notes w') (check_note-Quiet expected notes w w' p))
        (λ _ w' same. same)
