-- ===== src/Events/Written.antt =====
-- What is appended to a log is read back.
use vocab_system.Base.{
  All, ℕ, ◌≡◌, refl, sym, ap, ◌∙◌, String, true, false, none, some, List, [], ◌∷◌, ◌++◌, any, ◌==◌,
  arith, inl, inr, Bool-cases, Option-cases, ok, err, length, ok_inj, if◌then◌else◌, >>=-eq-ok,
}
use vocab_system.Models.{Event}
use vocab_system.Models.Values.{Json, text}
use vocab_system.Reconcile.Runtime.{Runtime}
use vocab_system.Events.{malformed_line, Decoded, parse_timestamp, event_from_record}
use vocab_system.Events.File.{
  is_last, Bytes, newline, cons_first, split, without_empty_last, read_lines, ends_in_newline,
  Codec, read_events, Reading,
}

-- The last line of a file that has no newline at its end.
cons_first-append :
    (b : ℕ) (ls ms : List Bytes)
    → (l : Bytes) → cons_first b ((l ∷ ls) ++ ms) ≡ cons_first b (l ∷ ls) ++ ms
cons_first-append b ls ms l = refl

split-cons : (xs : Bytes) → (l : Bytes) × (ls : List Bytes) × (split xs ≡ l ∷ ls)
unfolding split
split-cons [] = ([], [], refl)
split-cons (b ∷ xs) = elim (Bool-cases (b == newline)) [
  | inl here ↦ rw here ([], split xs, refl)
  | inr later ↦ let (l, ls, e) = split-cons xs in rw (later, e) (b ∷ l, ls, refl)
]

split-append : (xs ys : Bytes) → split (xs ++ (newline ∷ ys)) ≡ split xs ++ split ys
unfolding split
split-append [] ys = refl
split-append (b ∷ xs) ys = elim (Bool-cases (b == newline)) [
  | inl here ↦ rw here (ap (λ l. [] ∷ l) (split-append xs ys))
  | inr later ↦ let (l, ls, e) = split-cons xs in rw (later, split-append xs ys, e) refl
]

split-line : (line : Bytes) → any (λ b. b == newline) line ≡ false → split line ≡ line ∷ []
unfolding split
split-line [] h = refl
split-line (b ∷ line) h = elim (Bool-cases (b == newline)) [
  | inl here ↦ absurd (cc (rw here at h))
  | inr later ↦ rw (later, split-line line (rw later at h)) refl
]

without_empty_last-append : (ls : List Bytes) → without_empty_last (ls ++ ([] ∷ [])) ≡ ls
unfolding without_empty_last
without_empty_last-append [] = refl
without_empty_last-append ([] ∷ []) = refl
without_empty_last-append ((b ∷ l) ∷ []) = refl
without_empty_last-append ([] ∷ m ∷ ls) = ap (λ k. [] ∷ k) (without_empty_last-append (m ∷ ls))
without_empty_last-append ((b ∷ l) ∷ m ∷ ls) =
    ap (λ k. (b ∷ l) ∷ k) (without_empty_last-append (m ∷ ls))

-- A terminated file is its lines with a newline behind each.
pub read_lines-terminated : (xs : Bytes) → read_lines (xs ++ (newline ∷ [])) ≡ split xs
unfolding read_lines
read_lines-terminated xs =
    ap without_empty_last (split-append xs [])
    ∙ (unfold split in without_empty_last-append (split xs))

-- A file without a torn line is empty, or a text with a newline behind it.
pub terminated :
    (file : Bytes)
    → (length file == 0) ≡ false
    → ends_in_newline file ≡ true
    → (xs : Bytes) × (file ≡ xs ++ (newline ∷ []))
unfolding ends_in_newline
terminated [] h k = absurd (cc)
terminated (b ∷ []) h k = ([], ground (arith, k))
terminated (b ∷ c ∷ l) h k =
    let (xs, same) = terminated (c ∷ l) (ground arith) k in (b ∷ xs, ap (λ r. b ∷ r) same)

pub append_assoc : (a b c : Bytes) → (a ++ b) ++ c ≡ a ++ (b ++ c)
append_assoc [] b c = refl
append_assoc (x ∷ a) b c = ap (λ l. x ∷ l) (append_assoc a b c)

pub ends_in_newline-terminated : (xs : Bytes) → ends_in_newline (xs ++ (newline ∷ [])) ≡ true
unfolding ends_in_newline
ends_in_newline-terminated [] = refl
ends_in_newline-terminated (b ∷ []) = refl
ends_in_newline-terminated (b ∷ c ∷ l) = ends_in_newline-terminated (c ∷ l)

module _ (line : Bytes) (single : any (λ b. b == newline) line ≡ false) where
  pub read_lines-alone : read_lines (line ++ (newline ∷ [])) ≡ line ∷ []
  read_lines-alone = read_lines-terminated line ∙ split-line line single

  pub read_lines-behind :
      (xs : Bytes)
      → read_lines ((xs ++ (newline ∷ [])) ++ (line ++ (newline ∷ [])))
        ≡ read_lines (xs ++ (newline ∷ [])) ++ (line ∷ [])
  read_lines-behind xs =
      ap read_lines (
        append_assoc xs (newline ∷ []) (line ++ (newline ∷ []))
        ∙ sym (append_assoc xs (newline ∷ line) (newline ∷ [])))
      ∙ read_lines-terminated (xs ++ (newline ∷ line))
      ∙ split-append xs line
      ∙ ap (λ l. split xs ++ l) (split-line line single)
      ∙ ap (λ l. l ++ (line ∷ [])) (sym (read_lines-terminated xs))

module _ (codec : Codec) (rt : Runtime) (local_day : ℕ → String) where
  -- A line that is read as an event.
  pub record IsRead (line : Bytes) (e : Event) : Type 0 where
    pub value : Json
    pub loaded : codec.loads line ≡ some value
    pub decoded : event_from_record rt local_day value ≡ ok e
    pub instant : ℕ
    pub stamped : parse_timestamp rt (text e.ts) ≡ ok instant

  torn_line :
      (lines : List Bytes) (es : List Event)
      → ◌≡◌ {A = Decoded Reading}
          (if is_last lines then ok ([], true) else err malformed_line)
          (ok (es, false))
      → ⊥
  torn_line [] es h = cc (ap (λ (p : Reading). p.1) (ok_inj h))
  torn_line (l ∷ lines) es h = cc

  pub read_events-append :
      (line : Bytes) (e : Event)
      → IsRead line e
      → (lines : List Bytes) (es : List Event)
      → read_events codec rt local_day none none lines ≡ ok (es, false)
      → read_events codec rt local_day none none (lines ++ (line ∷ [])) ≡ ok (es ++ (e ∷ []), false)
  unfolding read_events
  read_events-append line e r [] es h =
      rw (r.loaded, r.decoded, r.stamped)
        (ap (λ (k : Reading). ok (k.0 ++ (e ∷ []), false)) (ok_inj h))
  read_events-append line e r (l ∷ lines) es h = elim (Option-cases (codec.loads l)) [
    | inl torn ↦ absurd (torn_line lines es (rw (torn, read_events) at h))
    | inr (v, loaded) ↦
        let (x, decoded, stamp) =
          >>=-eq-ok (event_from_record rt local_day v) _ (rw (loaded, read_events) at h) in
        let (i, stamped, later) = >>=-eq-ok (parse_timestamp rt (text x.ts)) _ stamp in
        let (k, there, last) = >>=-eq-ok (read_events codec rt local_day none none lines) _ later in
        let unwarned : k.1 ≡ false = ap (λ (p : Reading). p.1) (ok_inj last) in
        rw
          (
            loaded,
            decoded,
            stamped,
            read_events-append line e r lines (k.0) (there ∙ ap (λ w. ok (k.0, w)) unwarned),
          )
          (ap (λ (p : Reading). ok (p.0 ++ (e ∷ []), false)) (ok_inj last))
  ]

  -- Every line of a log that is read without a warning is read as an event.
  pub read_events-IsRead :
      (lines : List Bytes) (es : List Event)
      → read_events codec rt local_day none none lines ≡ ok (es, false)
      → All (λ l. (e : Event) × IsRead l e) lines
  unfolding read_events
  read_events-IsRead [] es h = tt
  read_events-IsRead (l ∷ lines) es h = elim (Option-cases (codec.loads l)) [
    | inl torn ↦ absurd (torn_line lines es (rw (torn, read_events) at h))
    | inr (v, loaded) ↦
        let (x, decoded, stamp) =
          >>=-eq-ok (event_from_record rt local_day v) _ (rw (loaded, read_events) at h) in
        let (i, stamped, later) = >>=-eq-ok (parse_timestamp rt (text x.ts)) _ stamp in
        let (k, there, last) = >>=-eq-ok (read_events codec rt local_day none none lines) _ later in
        let unwarned : k.1 ≡ false = ap (λ (p : Reading). p.1) (ok_inj last) in
        (
          (
            x,
            record {
              value = v;
              loaded = loaded;
              decoded = decoded;
              instant = i;
              stamped = stamped;
            },
          ),
          read_events-IsRead lines (k.0) (there ∙ ap (λ w. ok (k.0, w)) unwarned),
        )
  ]
