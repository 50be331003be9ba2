-- ===== src/Events/Trailing.antt =====
-- vocab/events.py, `_read_trailing_record`: the backward scan finds the last line.
use vocab_system.Base.{
  take, drop, ℕ, zero, suc, ◌+◌, ◌-◌, ◌≤◌, ◌≡◌, refl, sym, ap, ◌∙◌, subst, false, Option, none,
  some, List, [], ◌∷◌, ◌++◌, In, ◌==◌, arith, inl, inr, Bool-cases, Option-cases, ok, length,
  length-append, if◌then◌else◌,
}
use vocab_system.Events.File.{
  Bytes, newline, split, read_lines, after_newline, smaller, tail_read_chunk_size, scan_backward,
  read_trailing_record,
}
use vocab_system.Events.Written.{read_lines-terminated, append_assoc, ends_in_newline-terminated}

-- What stands behind the last newline.
unfoldable pub last_segment : Bytes → Bytes
unfolding after_newline
last_segment xs = elim (after_newline xs) [ none ↦ xs | some r ↦ r ]

abbrev behind : Option Bytes → Bytes → Option Bytes → Option Bytes
behind o b (some r) = some r
behind none b none = none
behind (some r) b none = some (r ++ b)

behind-none : (b : Bytes) (o : Option Bytes) → behind none b o ≡ o
behind-none b none = refl
behind-none b (some r) = refl

behind-step :
    (x : ℕ) (a b : Bytes) (o p : Option Bytes)
    → elim (behind o b p) [ some r ↦ some r | none ↦ if x == newline then some (a ++ b) else none ]
      ≡ behind (elim o [ some r ↦ some r | none ↦ if x == newline then some a else none ]) b p
behind-step x a b o (some r) = refl
behind-step x a b (some s) none = refl
behind-step x a b none none = elim (Bool-cases (x == newline)) [
  | inl h ↦ rw h refl
  | inr h ↦ rw h refl
]

after_newline-append :
    (a b : Bytes) → after_newline (a ++ b) ≡ behind (after_newline a) b (after_newline b)
unfolding after_newline
after_newline-append [] b = sym (behind-none b (after_newline b))
after_newline-append (x ∷ a) b =
    rw (after_newline-append a b) (behind-step x a b (after_newline a) (after_newline b))

last_segment-found : (a b r : Bytes) → after_newline b ≡ some r → last_segment (a ++ b) ≡ r
unfolding last_segment
last_segment-found a b r h = rw (last_segment, after_newline-append a b, h) refl

last_segment-longer :
    (a b : Bytes) → after_newline b ≡ none → last_segment (a ++ b) ≡ last_segment a ++ b
unfolding last_segment
last_segment-longer a b h = elim (Option-cases (after_newline a)) [
  | inl none_ ↦ rw (last_segment, after_newline-append a b, h, none_) refl
  | inr (r, found) ↦ rw (last_segment, after_newline-append a b, h, found) refl
]

take-nil : (k : ℕ) → take {A = ℕ} k [] ≡ []
take-nil zero = refl
take-nil (suc k) = refl

take-drop : (p k q : ℕ) (l : Bytes) → q ≡ p + k → take q l ≡ take p l ++ take k (drop p l)
take-drop zero k q l h = ap (λ n. take n l) (omega arith)
take-drop (suc p) k zero l h = absurd (omega arith)
take-drop (suc p) k (suc q) [] h = sym (take-nil k)
take-drop (suc p) k (suc q) (b ∷ l) h = ap (λ r. b ∷ r) (take-drop p k q l (omega arith))

smaller-bounds :
    (n : ℕ)
    → (1 ≤ smaller tail_read_chunk_size (suc n)) × (smaller tail_read_chunk_size (suc n) ≤ suc n)
smaller-bounds n = ground arith

last_segment-start : (file joined : Bytes) → joined ≡ last_segment (take 0 file) ++ joined
unfolding last_segment after_newline
last_segment-start file joined = refl

scan_backward-last :
    (file : Bytes) (fuel position : ℕ) (joined : Bytes)
    → position ≤ fuel
    → scan_backward file fuel position joined ≡ last_segment (take position file) ++ joined
unfolding scan_backward
scan_backward-last file zero zero joined h = last_segment-start file joined
scan_backward-last file zero (suc n) joined h = absurd (omega arith)
scan_backward-last file (suc fuel) zero joined h = last_segment-start file joined
scan_backward-last file (suc fuel) (suc n) joined h =
    let size = smaller tail_read_chunk_size (suc n) in
    let (positive, small) = smaller-bounds n in
    let parts = take-drop (suc n - size) size (suc n) file (omega arith) in
    elim (Option-cases (after_newline (take size (drop (suc n - size) file)))) [
      | inr (r, found) ↦
          rw (found, scan_backward)
            (ap (λ l. l ++ joined)
              (sym (
                ap last_segment parts
                ∙ last_segment-found (take (suc n - size) file)
                    (take size (drop (suc n - size) file)) r found)))
      | inl inside ↦
          rw (inside, scan_backward)
            (scan_backward-last file fuel (suc n - size)
                (take size (drop (suc n - size) file) ++ joined) (omega arith)
              ∙ sym (
                  append_assoc (last_segment (take (suc n - size) file))
                    (take size (drop (suc n - size) file)) joined)
              ∙ ap (λ l. l ++ joined)
                  (sym (
                    ap last_segment parts
                    ∙ last_segment-longer (take (suc n - size) file)
                        (take size (drop (suc n - size) file)) inside)))
    ]

take-all : (xs : Bytes) (ys : Bytes) → take (length xs) (xs ++ ys) ≡ xs
take-all [] ys = refl
take-all (x ∷ xs) ys = ap (λ l. x ∷ l) (take-all xs ys)

append-nil : (xs : Bytes) → xs ++ [] ≡ xs
append-nil [] = refl
append-nil (x ∷ xs) = ap (λ l. x ∷ l) (append-nil xs)

-- The backward scan of a terminated file returns what stands behind the newline before the last.
pub read_trailing_record-last :
    (xs : Bytes) → read_trailing_record (xs ++ (newline ∷ [])) ≡ ok (some (last_segment xs))
unfolding read_trailing_record
read_trailing_record-last xs =
    let file = xs ++ (newline ∷ []) in
    let size : length file ≡ length xs + 1 = length-append xs (newline ∷ []) in
    let full : (length file == 0) ≡ false = ground arith in
    rw (full, ends_in_newline-terminated xs)
      (ap (λ l. ok (some l))
        (scan_backward-last file (length file - 1) (length file - 1) [] (omega arith)
          ∙ append-nil _
          ∙ ap last_segment
              (ap (λ n. take n file) (omega (arith, size)) ∙ take-all xs (newline ∷ []))))

-- The lines of a text: the last is what stands behind its last newline.
abbrev Ends : Bytes → Option Bytes → Type 0
Ends xs none = split xs ≡ xs ∷ []
Ends xs (some r) = (l : Bytes) × (ls : List Bytes) × (split xs ≡ l ∷ (ls ++ (r ∷ [])))

split-Ends : (xs : Bytes) → Ends xs (after_newline xs)
unfolding split after_newline
split-Ends [] = refl
split-Ends (b ∷ xs) = elim (Option-cases (after_newline xs)) [
  | inl inside ↦
      let same : split xs ≡ xs ∷ [] = subst (Ends xs) inside (split-Ends xs) in
      elim (Bool-cases (b == newline)) [
        | inl here ↦ rw (inside, here) ([], [], rw (here, same) refl)
        | inr later ↦ rw (inside, later) (rw (same, later) refl)
      ]
  | inr (r, found) ↦
      let (l, ls, same) = subst (Ends xs) found (split-Ends xs) in
      elim (Bool-cases (b == newline)) [
        | inl here ↦ rw found ([], l ∷ ls, rw (here, same) refl)
        | inr later ↦ rw found (b ∷ l, ls, rw (later, same) refl)
      ]
]

In-append : (ls : List Bytes) (r : Bytes) → In r (ls ++ (r ∷ []))
In-append [] r = inl refl
In-append (l ∷ ls) r = inr (In-append ls r)

pub last_segment-In : (xs : Bytes) → In (last_segment xs) (split xs)
unfolding last_segment split
last_segment-In xs = elim (Option-cases (after_newline xs)) [
  | inl inside ↦
      let same : split xs ≡ xs ∷ [] = subst (Ends xs) inside (split-Ends xs) in
      rw (last_segment, inside, same) (inl refl)
  | inr (r, found) ↦
      let (l, ls, same) = subst (Ends xs) found (split-Ends xs) in
      rw (last_segment, found, same) (inr (In-append ls r))
]

-- The backward scan of a terminated file returns the last of the lines that a reading of the
-- whole file gets.
pub read_trailing_record-read_lines :
    (xs : Bytes)
    → (ls : List Bytes) × (l : Bytes) × (read_lines (xs ++ (newline ∷ [])) ≡ ls ++ (l ∷ []))
      × (read_trailing_record (xs ++ (newline ∷ [])) ≡ ok (some l))
unfolding last_segment
read_trailing_record-read_lines xs =
    let scanned = read_trailing_record-last xs in
    elim (Option-cases (after_newline xs)) [
      | inl inside ↦
          let same : split xs ≡ xs ∷ [] = subst (Ends xs) inside (split-Ends xs) in
          (
            [],
            xs,
            read_lines-terminated xs ∙ same,
            scanned ∙ ap (λ l. ok (some l)) (rw (last_segment, inside) refl),
          )
      | inr (r, found) ↦
          let (l, ls, same) = subst (Ends xs) found (split-Ends xs) in
          (
            l ∷ ls,
            r,
            read_lines-terminated xs ∙ same,
            scanned ∙ ap (λ l. ok (some l)) (rw (last_segment, found) refl),
          )
    ]
