-- ===== src/Tests/Reviews.antt =====
-- The reviews of one sample card.
use vocab_system.Base.{ℕ, ◌≤◌, ◌<◌, ◌≡◌, refl, inl, true, some, List, [], ◌∷◌, In, arith}
use vocab_system.Base.Int.{pos}
use vocab_system.Reconcile.Revlog.{
  Parsed, is_lifecycle, first_revlog_id_after, summarize, summary_of, keep, sort_parsed,
  insert_parsed,
}
use vocab_system.Reconcile.Revlog.Earliest.{
  first_revlog_id_after_least, first_revlog_id_after_sound,
}

abbrev row : ℕ → ℕ → Parsed
row id kind = record {
  review_id = id;
  instant = id;
  review = record { id = pos id; ease = pos 3; kind = pos kind; interval = pos 1 };
}

-- The cram at 2 does not count; the reviews come unsorted.
abbrev rows : List Parsed
rows = row 5 1 ∷ row 2 3 ∷ row 4 1 ∷ row 1 0 ∷ []

first_revlog_id_after_least_example :
    (id : ℕ) × (first_revlog_id_after (summarize 10 rows).lifecycle_review_entries (some 1)
      ≡ some id)
    × (id ≤ 5)
first_revlog_id_after_least_example =
    first_revlog_id_after_least 10 rows 1 (row 5 1) (inl refl) refl (omega arith)

first_revlog_id_after_sound_example :
    (p : Parsed) × In p rows × (is_lifecycle p ≡ true) × (1 < p.instant) × (p.review_id ≡ 4)
unfolding first_revlog_id_after summarize summary_of keep sort_parsed insert_parsed
first_revlog_id_after_sound_example = first_revlog_id_after_sound 10 rows 1 4 refl
