-- ===== src/Search/Run/Terms.antt =====
-- What the loop over the terms decides for one note.
use notekeeper_open.Base.{
  ◌≡◌, refl, Bool, true, false, not, ◌&&◌, ◌||◌, List, [], ◌∷◌, QString, lit, All, arith,
  if◌then◌else◌,
}
use notekeeper_open.Search.Unicode.{Unicode}
use notekeeper_open.Search.Query.{SearchTerm}
use notekeeper_open.Search.Run.{
  NoteData, Notes, Flags, has_qualifier, is_term_text_matched, visit_term, term_loop, no_flags,
  note_matched,
}

module _ (u : Unicode) (n : Notes) (d : NoteData) where
  -- A term, its sign included, is met by the note.
  unfoldable pub term_met : SearchTerm → Bool
  term_met term =
      if term.is_negated
      then not (is_term_text_matched u n d term)
      else is_term_text_matched u n d term

  unfoldable pub all_met : List SearchTerm → Bool
  all_met [] = true
  all_met (term ∷ terms) = term_met term && all_met terms

  unfoldable pub some_met : List SearchTerm → Bool
  some_met [] = false
  some_met (term ∷ terms) = term_met term || some_met terms

  outcome : Flags → Bool
  outcome f = f.any_term_can_match && f.matched_term_exists || not f.unmatched_term_exists

  every_loop :
      (f : Flags) (terms : List SearchTerm)
      → All (λ t. has_qualifier u t (lit "any") ≡ false) terms
      → f.any_term_can_match ≡ false
      → f.unmatched_term_exists ≡ false
      → outcome (term_loop u n d f terms) ≡ all_met terms
  unfolding term_loop outcome all_met term_met
  every_loop f [] h a m = ground arith
  every_loop f (t ∷ terms) h a m = ground (arith, every_loop (visit_term u n d f t) terms h.1)

  some_loop :
      (f : Flags) (terms : List SearchTerm)
      → f.any_term_can_match ≡ true
      → f.unmatched_term_exists ≡ true
      → f.matched_term_exists ≡ false
      → outcome (term_loop u n d f terms) ≡ some_met terms
  unfolding term_loop outcome some_met term_met
  some_loop f [] a m k = ground arith
  some_loop f (t ∷ terms) a m k = ground (arith, some_loop (visit_term u n d f t) terms)

module _ (u : Unicode) (n : Notes) where
  -- Without an `any:` term a note matches a query exactly when it meets every term.
  pub note_matched_every :
      (terms : List SearchTerm) (note_id : QString)
      → All (λ t. has_qualifier u t (lit "any") ≡ false) terms
      → note_matched u n terms note_id ≡ all_met u n (n.note_data note_id) terms
  unfolding note_matched outcome
  note_matched_every terms note_id h =
      every_loop u n (n.note_data note_id) no_flags terms h refl refl

  -- With an `any:` term that is not negated in front a note matches exactly when it meets one of the other terms.
  pub note_matched_any :
      (first : SearchTerm) (terms : List SearchTerm) (note_id : QString)
      → has_qualifier u first (lit "any") ≡ true
      → first.is_negated ≡ false
      → note_matched u n (first ∷ terms) note_id ≡ some_met u n (n.note_data note_id) terms
  unfolding note_matched outcome term_loop is_term_text_matched
  note_matched_any first terms note_id h k = ground (
    arith,
    some_loop u n (n.note_data note_id) (visit_term u n (n.note_data note_id) no_flags first) terms,
  )

  -- A negated `any:` term in front makes every note match, whatever the other terms say.
  pub note_matched_negated_any :
      (first : SearchTerm) (terms : List SearchTerm) (note_id : QString)
      → has_qualifier u first (lit "any") ≡ true
      → first.is_negated ≡ true
      → note_matched u n (first ∷ terms) note_id ≡ true
  unfolding note_matched term_loop is_term_text_matched
  note_matched_negated_any first terms note_id h k = ground arith
