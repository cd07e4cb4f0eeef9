-- ===== src/Search/Run.antt =====
-- SearchLocalNotesThread::run: which notes are searched, how a note is matched against the terms,
-- and the signals that the thread emits.
pub mod Terms
pub mod Results
use notekeeper_open.Base.{
  ℕ, zero, suc, ◌+◌, ◌*◌, ◌/◌, ◌%◌, ◌^◌, ◌-◌, ltb, Bool, true, false, not, ◌&&◌, ◌||◌, List, [],
  ◌∷◌, ◌++◌, map, QString, lit, length, is_empty, leb, if◌then◌else◌, text_eq, contains, keep,
}
use notekeeper_open.Base.Split.{split}
use notekeeper_open.Search.Unicode.{Unicode}
use notekeeper_open.Search.Query.{SearchTerm, parse_query}
use notekeeper_open.Search.Words.{words}
use notekeeper_open.Search.Match.{is_text_matching}

-- The entries of StorageManager::noteData that the search reads.
pub record NoteData : Type 0 where
  pub content_data_available : Bool
  pub title : QString
  pub content : QString
  pub tag_names : QString

-- What the thread asks of the storage manager and of EvernoteMarkup.
pub record Notes : Type 0 where
  pub all_note_ids : List QString
  pub notebook_note_ids : QString → List QString
  pub notebook_id_for_name : QString → QString
  pub note_data : QString → NoteData
  pub plain_text_words : QString → QString → List QString

-- The three flags of the loop over the terms.
pub record Flags : Type 0 where
  pub matched_term_exists : Bool
  pub unmatched_term_exists : Bool
  pub any_term_can_match : Bool

pub data Signal : Type 0 where
  matching_note : QString → Signal
  progress_percentage : ℕ → Signal
  finished : ℕ → Signal

abbrev pub no_flags : Flags
no_flags = record {
  matched_term_exists = false;
  unmatched_term_exists = false;
  any_term_can_match = false;
}

unfoldable pub leaves_loop : Flags → Bool
leaves_loop f =
    not f.any_term_can_match && f.unmatched_term_exists
    || f.any_term_can_match && f.matched_term_exists

-- An int is held as its 32 bits: whether it is negative, how far it is from 0, and the quotient of two,
-- cut towards 0.
abbrev pub is_negative : ℕ → Bool
is_negative w = not (ltb w (2 ^ 31))

abbrev pub magnitude : ℕ → ℕ
magnitude w = if ltb w (2 ^ 31) then w else 2 ^ 32 - w

unfoldable pub int_div : ℕ → ℕ → ℕ
int_div a b =
    let q = magnitude a / magnitude b in
    if (is_negative a && not (is_negative b)) || (not (is_negative a) && is_negative b)
    then (2 ^ 32 - q) % 2 ^ 32
    else q

-- `searchedNotesCount * 100 / noteIdsToSearchIn.count()`, of which the product may wrap.
unfoldable pub percentage : ℕ → ℕ → ℕ
unfolding int_div
percentage searched count = int_div (searched * 100 % 2 ^ 32) count

-- The notes of one notebook; two or more are put in the order of the list of all notes.
unfoldable pub in_order : List QString → List QString → List QString
in_order note_ids all_note_ids =
    if leb (length note_ids) 1 then note_ids else keep (contains note_ids) all_note_ids

module _ (u : Unicode) where
  -- `term.qualifier.compare(name, Qt::CaseInsensitive) == 0`
  unfoldable pub has_qualifier : SearchTerm → QString → Bool
  has_qualifier term name = text_eq (map u.fold term.qualifier) (map u.fold name)

  unfoldable pub any_tag_matches : QString → List QString → Bool
  any_tag_matches text [] = false
  any_tag_matches text (tag_name ∷ tag_names) =
      if is_text_matching u text (words u tag_name) then true else any_tag_matches text tag_names

  unfoldable pub is_term_text_matched : Notes → NoteData → SearchTerm → Bool
  unfolding has_qualifier any_tag_matches
  is_term_text_matched n d term =
      if has_qualifier term (lit "any")
      then false
      else if has_qualifier term (lit "notebook")
      then true
      else if has_qualifier term (lit "tag")
      then any_tag_matches term.text (if is_empty d.tag_names then [] else split b',' d.tag_names)
      else if has_qualifier term (lit "intitle")
      then is_text_matching u term.text (words u d.title)
      else if is_empty term.qualifier
      then is_text_matching u term.text
          (n.plain_text_words d.title (if d.content_data_available then d.content else []))
      else false

  -- One round of the loop over the terms, up to the tests that may leave the loop.
  unfoldable pub visit_term : Notes → NoteData → Flags → SearchTerm → Flags
  visit_term n d f term =
      let text_matched = is_term_text_matched n d term in
      let matched = if term.is_negated then not text_matched else text_matched in
      record {
        matched_term_exists = f.matched_term_exists || matched;
        unmatched_term_exists = f.unmatched_term_exists || not matched;
        any_term_can_match = f.any_term_can_match || has_qualifier term (lit "any");
      }

  unfoldable pub term_loop : Notes → NoteData → Flags → List SearchTerm → Flags
  unfolding visit_term leaves_loop
  term_loop n d f [] = f
  term_loop n d f (term ∷ terms) =
      let g = visit_term n d f term in
      let rest = term_loop n d g terms in if leaves_loop g then g else rest

  unfoldable pub note_matched : Notes → List SearchTerm → QString → Bool
  unfolding term_loop
  note_matched n terms note_id =
      let f = term_loop n (n.note_data note_id) no_flags terms in
      f.any_term_can_match && f.matched_term_exists || not f.unmatched_term_exists

  unfoldable pub notebooks_in_query : List SearchTerm → List QString
  unfolding has_qualifier
  notebooks_in_query [] = []
  notebooks_in_query (term ∷ terms) =
      let rest = notebooks_in_query terms in
      if has_qualifier term (lit "notebook") then u.simplified term.text ∷ rest else rest

  -- The loop over the notes. `m_cancelled` is set by another thread: `cancelled k` is what the
  -- k-th round reads.
  unfoldable pub note_loop :
      Notes → List SearchTerm → (ℕ → Bool) → ℕ → ℕ → ℕ → ℕ → List QString → List Signal
  unfolding percentage
  note_loop n terms cancelled count round unsearched searched [] = finished unsearched ∷ []
  note_loop n terms cancelled count round unsearched searched (note_id ∷ note_ids) =
      let matched = note_matched n terms note_id in
      let available = (n.note_data note_id).content_data_available in
      let unsearched' =
        if not available && not matched then (unsearched + 1) % 2 ^ 32 else unsearched in
      let skip = note_loop n terms cancelled count (suc round) unsearched searched note_ids in
      let searched' = (searched + 1) % 2 ^ 32 in
      let rest = note_loop n terms cancelled count (suc round) unsearched' searched' note_ids in
      if is_empty note_id
      then skip
      else if cancelled round
      then finished (length n.all_note_ids % 2 ^ 32) ∷ []
      else (if matched then matching_note note_id ∷ [] else [])
        ++ progress_percentage (percentage searched' count) ∷ rest

  unfoldable pub search_in : Notes → List SearchTerm → (ℕ → Bool) → List QString → List Signal
  unfolding note_loop
  search_in n terms cancelled note_ids =
      note_loop n terms cancelled (length note_ids % 2 ^ 32) 0 0 0 note_ids

  unfoldable pub search_notebooks :
      Notes → List SearchTerm → (ℕ → Bool) → List QString → List Signal
  unfolding search_in in_order
  search_notebooks n terms cancelled [] = search_in n terms cancelled n.all_note_ids
  search_notebooks n terms cancelled (name ∷ []) =
      let notebook_id = n.notebook_id_for_name name in
      if is_empty notebook_id
      then finished (length n.all_note_ids % 2 ^ 32) ∷ []
      else search_in n terms cancelled (in_order (n.notebook_note_ids notebook_id) n.all_note_ids)
  search_notebooks n terms cancelled (name ∷ name' ∷ names) =
      finished (length n.all_note_ids % 2 ^ 32) ∷ []

  unfoldable pub run : Notes → QString → (ℕ → Bool) → List Signal
  unfolding search_notebooks notebooks_in_query
  run n query cancelled =
      let terms = parse_query u query in
      search_notebooks n terms cancelled (notebooks_in_query terms)
