-- ===== src/Events/Appended.antt =====
-- vocab/events.py: what EventLog.log appends is what EventLog.read_strict reads.
use vocab_system.Base.{
  ℕ, ◌≡◌, refl, sym, ap, ◌∙◌, subst, ◌⊎◌, inl, inr, String, true, false, not, ◌&&◌, none, some,
  List, [], ◌∷◌, ◌++◌, any, ◌==◌, length, length-append, ◌+◌, arith, All, In, ok, raise_if,
  >>=-eq-ok, ok_inj, raise_if-eq-ok, Bool-cases,
}
use vocab_system.Base.Text.{str_eq, str_eq_iff, str_in}
use vocab_system.Models.{Event}
use vocab_system.Models.Values.{Json, text, obj, Fields}
use vocab_system.Reconcile.Runtime.{Runtime, aware}
use vocab_system.Events.{
  unterminated, malformed_line, reserved_event_types, validate_event_values, parse_timestamp,
  event_at, decode_v1_event, event_from_record, to_dict,
}
use vocab_system.Events.File.{
  Bytes, newline, Codec, read_lines, split, ends_in_newline, read_events, read, read_strict,
  read_trailing_record, validate_trailing_record, log,
}
use vocab_system.Events.Written.{
  IsRead, read_events-append, read_events-IsRead, read_lines-alone, read_lines-behind,
  read_lines-terminated, terminated, ends_in_newline-terminated, append_assoc,
}
use vocab_system.Events.Trailing.{last_segment, last_segment-In, read_trailing_record-last}

All-In : {A : Type 0} (P : A → Type 0) (l : List A) → All P l → (x : A) → In x l → P x
All-In P [] h x m = absurd m
All-In P (y ∷ l) (h, hs) x (inl same) = subst P (sym same) h
All-In P (y ∷ l) (h, hs) x (inr later) = All-In P l hs x later

nil_of : (file : Bytes) → (length file == 0) ≡ true → file ≡ []
nil_of [] h = refl
nil_of (b ∷ l) h = absurd (ground arith)

-- A line that `json` prints for a value, without a newline, and reads as the value again.
pub record IsPrinted (codec : Codec) (value : Json) (line : Bytes) : Type 0 where
  pub dumped : codec.dumps value ≡ some line
  pub loaded : codec.loads line ≡ some value
  pub single : any (λ b. b == newline) line ≡ false

-- An instant whose text `fromisoformat` reads back.
pub record IsReadable (rt : Runtime) (instant : ℕ) : Type 0 where
  pub filled : str_eq (rt.isoformat instant) "" ≡ false
  pub parsed : rt.fromisoformat (rt.isoformat instant) ≡ aware instant

module _ (codec : Codec) (rt : Runtime) (local_day : ℕ → String) where
  abbrev IsTerminated : Bytes → Type 0
  IsTerminated file = (file ≡ []) ⊎ ((xs : Bytes) × (file ≡ xs ++ (newline ∷ [])))

  -- A line behind a terminated file is one more line.
  abbrev HasBehind : Bytes → Bytes → Type 0
  HasBehind line file =
      (zs : Bytes) × (file ++ (line ++ (newline ∷ [])) ≡ zs ++ (newline ∷ []))
      × (read_lines (file ++ (line ++ (newline ∷ []))) ≡ read_lines file ++ (line ∷ []))

  HasBehind-terminated :
      (line file : Bytes)
      → any (λ b. b == newline) line ≡ false
      → IsTerminated file
      → HasBehind line file
  unfolding read_lines split
  HasBehind-terminated line file single (inl empty) =
      subst (HasBehind line) (sym empty) (line, refl, read_lines-alone line single)
  HasBehind-terminated line file single (inr (xs, same)) = subst (HasBehind line) (sym same) (
    xs ++ (newline ∷ line),
    append_assoc xs (newline ∷ []) (line ++ (newline ∷ []))
        ∙ sym (append_assoc xs (newline ∷ line) (newline ∷ [])),
    read_lines-behind line single xs,
  )

  IsTerminated-guard :
      (file : Bytes)
      → (not (length file == 0) && not (ends_in_newline file)) ≡ false
      → IsTerminated file
  IsTerminated-guard file h = elim (Bool-cases (length file == 0)) [
    | inl empty ↦ inl (nil_of file empty)
    | inr full ↦ elim (Bool-cases (ends_in_newline file)) [
      | inl ends ↦ inr (terminated file full ends)
      | inr open_ ↦ absurd (cc (rw (full, open_) at h))
    ]
  ]

  read_strict-eq-ok :
      (file : Bytes) (events : List Event)
      → read_strict codec rt local_day file ≡ ok events
      → IsTerminated file
        × (read_events codec rt local_day none none (read_lines file) ≡ ok (events, false))
  unfolding read_strict read
  read_strict-eq-ok file events h =
      let (_, checked, rest) =
        >>=-eq-ok (raise_if (not (length file == 0) && not (ends_in_newline file)) unterminated) _
          h in
      let (r, reading, last) =
        >>=-eq-ok (read_events codec rt local_day none none (read_lines file)) _ rest in
      let (_, quiet, same) = >>=-eq-ok (raise_if (r.1) malformed_line) _ last in
      (
        IsTerminated-guard file (raise_if-eq-ok _ _ checked),
        reading
            ∙ ap (λ w. ok (r.0, w)) (raise_if-eq-ok _ _ quiet)
            ∙ ap (λ l. ok (l, false)) (ok_inj same),
      )

  read_strict-terminated :
      (xs : Bytes) (events : List Event)
      → read_events codec rt local_day none none (read_lines (xs ++ (newline ∷ [])))
        ≡ ok (events, false)
      → read_strict codec rt local_day (xs ++ (newline ∷ [])) ≡ ok events
  unfolding read_strict read
  read_strict-terminated xs events h =
      let size : length (xs ++ (newline ∷ [])) ≡ length xs + 1 = length-append xs (newline ∷ []) in
      let full : (length (xs ++ (newline ∷ [])) == 0) ≡ false = ground arith in
      rw (full, ends_in_newline-terminated xs, h) refl

  module _ (instant : ℕ) (event unit_key : String) (payload : Fields) where
    event_from_record-to_dict :
        IsReadable rt instant
        → validate_event_values (text event) (text unit_key) (obj payload)
          ≡ ok (event, unit_key, payload)
        → event_from_record rt local_day
            (to_dict (event_at rt local_day instant event unit_key payload))
          ≡ ok (event_at rt local_day instant event unit_key payload)
    unfolding event_from_record decode_v1_event to_dict parse_timestamp
    event_from_record-to_dict r valid =
        rw
          (
            valid,
            r.filled,
            r.parsed,
            (str_eq_iff (rt.isoformat instant) (rt.isoformat instant)).1 refl,
            (str_eq_iff (local_day instant) (local_day instant)).1 refl,
          )
          refl

    -- The check before an append.
    validate_trailing_record-passed :
        (file : Bytes) (events : List Event)
        → read_strict codec rt local_day file ≡ ok events
        → validate_trailing_record codec rt local_day file ≡ ok tt
    unfolding validate_trailing_record read_trailing_record
    validate_trailing_record-passed file events h =
        let (shape, reading) = read_strict-eq-ok file events h in
        elim shape [
          | inl empty ↦
              subst (λ f. validate_trailing_record codec rt local_day f ≡ ok tt) (sym empty) refl
          | inr (xs, same) ↦
              let lines =
                ap (read_events codec rt local_day none none)
                  (sym (read_lines-terminated xs) ∙ ap read_lines (sym same))
                ∙ reading in
              let (e, r) =
                All-In (λ l. (e : Event) × IsRead codec rt local_day l e) (split xs)
                  (read_events-IsRead codec rt local_day (split xs) events lines) (last_segment xs)
                  (last_segment-In xs) in
              rw (same, read_trailing_record-last xs, r.loaded, r.decoded) refl
        ]

    IsPrinted-IsRead :
        (line : Bytes)
        → validate_event_values (text event) (text unit_key) (obj payload)
          ≡ ok (event, unit_key, payload)
        → IsReadable rt instant
        → IsPrinted codec (to_dict (event_at rt local_day instant event unit_key payload)) line
        → IsRead codec rt local_day line (event_at rt local_day instant event unit_key payload)
    unfolding parse_timestamp
    IsPrinted-IsRead line valid r p = record {
      value = to_dict (event_at rt local_day instant event unit_key payload);
      loaded = p.loaded;
      decoded = event_from_record-to_dict r valid;
      instant = instant;
      stamped = rw (r.filled, r.parsed) refl;
    }

    -- What is appended to a log that is read without an error is written, and read behind what
    -- the log had, for values that pass validation, an event type that is not reserved, an
    -- instant whose text is read back, and a line of json that is read back and has no newline.
    pub read_strict-log :
        (file line : Bytes) (events : List Event)
        → read_strict codec rt local_day file ≡ ok events
        → validate_event_values (text event) (text unit_key) (obj payload)
          ≡ ok (event, unit_key, payload)
        → str_in event reserved_event_types ≡ false
        → IsReadable rt instant
        → IsPrinted codec (to_dict (event_at rt local_day instant event unit_key payload)) line
        → (file' : Bytes) × (log codec rt local_day instant event unit_key payload file
            ≡ ok (event_at rt local_day instant event unit_key payload, file'))
          × (read_strict codec rt local_day file'
              ≡ ok (events ++ (event_at rt local_day instant event unit_key payload ∷ [])))
    unfolding log
    read_strict-log file line events h valid open_ r p = (
      file ++ (line ++ (newline ∷ [])),
      rw (valid, open_, p.dumped, validate_trailing_record-passed file events h) refl,
      (let (shape, reading) = read_strict-eq-ok file events h in
          let (zs, closed, lines) = HasBehind-terminated line file p.single shape in
          subst
            (λ f.
              read_strict codec rt local_day f
              ≡ ok (events ++ (event_at rt local_day instant event unit_key payload ∷ [])))
            (sym closed)
            (read_strict-terminated zs _ (
              ap (λ f. read_events codec rt local_day none none (read_lines f)) (sym closed)
              ∙ ap (read_events codec rt local_day none none) lines
              ∙ read_events-append codec rt local_day line _ (IsPrinted-IsRead line valid r p)
                  (read_lines file) events reading))),
    )
