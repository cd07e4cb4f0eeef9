-- ===== src/Search/Tests.antt =====
-- The search at concrete inputs, with the Unicode data of the ASCII characters.
use notekeeper_open.Base.{
  arith, ℕ, ◌+◌, ◌≡◌, ◌↔◌, refl, Bool, true, false, ◌&&◌, ◌||◌, [], ◌∷◌, lit, leb, ◌==◌, keep, take,
  text_dec, if◌then◌else◌,
}
use notekeeper_open.Search.Unicode.{Unicode}
use notekeeper_open.Search.Query.{SearchTerm, read_char, parse_query}
use notekeeper_open.Search.Query.RoundTrip.{last_of, print_query, parse_query-print_query}
use notekeeper_open.Search.Words.{words}
use notekeeper_open.Search.Words.Cut.{IsCut, words-IsCut}
use notekeeper_open.Search.Match.{
  is_text_matching, ends_with_star, match_loop, is_word_match, is_sequence_match, starts_with,
}
use notekeeper_open.Search.Match.Spec.{Found, is_text_matching-Found}
use notekeeper_open.Search.Run.{
  NoteData, Notes, matching_note, progress_percentage, finished, is_term_text_matched, note_matched,
  notebooks_in_query, has_qualifier, search_in, run,
}
use notekeeper_open.Search.Run.Terms.{all_met, note_matched_every, note_matched_negated_any}
use notekeeper_open.Search.Run.Results.{
  matches_of, IsReport, is_hit, rounds, search_in-matches, run-IsReport, run-matches,
}

abbrev between : ℕ → ℕ → ℕ → Bool
between low high c = leb low c && leb c high

abbrev ascii : Unicode
ascii = record {
  is_letter_or_number = λ c. between b'0' b'9' c || between b'A' b'Z' c || between b'a' b'z' c;
  is_space = λ c. c == b' ';
  is_punct = λ c. between 33 47 c;
  is_symbol = λ c. c == b'~';
  simplified = λ t. t;
  fold = λ c. if between b'A' b'Z' c then c + 32 else c;
  space_other = refl;
  colon_other = refl;
  quote_other = refl;
  minus_other = refl;
}

abbrev red_tag : SearchTerm
red_tag = record { qualifier = lit "tag"; text = lit "red"; is_negated = false }

abbrev not_car : SearchTerm
not_car = record { qualifier = []; text = lit "old car"; is_negated = true }

abbrev any_term : SearchTerm
any_term = record { qualifier = lit "any"; text = lit "x"; is_negated = false }

abbrev negated_any : SearchTerm
negated_any = record { qualifier = lit "Any"; text = lit "x"; is_negated = true }

abbrev a_note : NoteData
a_note = record {
  content_data_available = true;
  title = lit "Red car";
  content = lit "red car";
  tag_names = lit "red,blue";
}

-- Every note is the same note.
abbrev some_notes : Notes
some_notes = record {
  all_note_ids = lit "n1" ∷ lit "n2" ∷ [];
  notebook_note_ids = λ b. [];
  notebook_id_for_name = λ name. [];
  note_data = λ note_id. a_note;
  plain_text_words = λ title content. lit "red" ∷ lit "car" ∷ [];
}

-- `tag:red -"old car"`, as a user writes it.
parsed : parse_query ascii (lit "tag:red -\"old car\"") ≡ red_tag ∷ not_car ∷ []
unfolding parse_query read_char
parsed = refl

found :
    run ascii some_notes (lit "red ca*") (λ k. false)
    ≡ matching_note (lit "n1")
      ∷ progress_percentage 50
      ∷ matching_note (lit "n2")
      ∷ progress_percentage 100
      ∷ finished 0
      ∷ []
unfolding run parse_query read_char text_dec note_matched is_term_text_matched is_text_matching
    words match_loop is_word_match ends_with_star is_sequence_match starts_with
found = refl

parse_query-print_query_example :
    parse_query ascii (print_query (red_tag ∷ not_car ∷ [])) ≡ red_tag ∷ not_car ∷ []
unfolding last_of
parse_query-print_query_example = parse_query-print_query ascii (red_tag ∷ not_car ∷ []) (
  record {
    qualifier_plain = (refl, (refl, (refl, tt)));
    text_unquoted = (refl, (refl, (refl, tt)));
    text_present = refl;
    text_closed = refl;
  },
  (
    record {
      qualifier_plain = tt;
      text_unquoted = (refl, (refl, (refl, (refl, (refl, (refl, (refl, tt)))))));
      text_present = refl;
      text_closed = refl;
    },
    tt,
  ),
)

words-IsCut_example : IsCut ascii (lit "red, car") (words ascii (lit "red, car"))
words-IsCut_example = words-IsCut ascii (lit "red, car")

is_text_matching-Found_example :
    (is_text_matching ascii (lit "red ca*") (lit "a" ∷ lit "red" ∷ lit "car" ∷ []) ≡ true)
    ↔ Found ascii
        (ends_with_star (lit "red ca*"))
        (words ascii (lit "red ca*"))
        (lit "a" ∷ lit "red" ∷ lit "car" ∷ [])
is_text_matching-Found_example =
    is_text_matching-Found ascii (lit "red ca*") (lit "a" ∷ lit "red" ∷ lit "car" ∷ [])

note_matched_every_example :
    note_matched ascii some_notes (red_tag ∷ not_car ∷ []) (lit "n1")
    ≡ all_met ascii some_notes a_note (red_tag ∷ not_car ∷ [])
unfolding has_qualifier text_dec
note_matched_every_example =
    note_matched_every ascii some_notes (red_tag ∷ not_car ∷ []) (lit "n1") (refl, (refl, tt))

note_matched_negated_any_example :
    note_matched ascii some_notes (negated_any ∷ not_car ∷ []) (lit "n1") ≡ true
unfolding has_qualifier text_dec
note_matched_negated_any_example =
    note_matched_negated_any ascii some_notes negated_any (not_car ∷ []) (lit "n1") refl refl

search_in-matches_example :
    matches_of (search_in ascii some_notes (red_tag ∷ []) (λ k. k == 1) (lit "n1" ∷ lit "n2" ∷ []))
    ≡ keep (is_hit ascii some_notes (red_tag ∷ [])) (
        take
          (rounds ascii some_notes (red_tag ∷ []) (λ k. k == 1) 0 (lit "n1" ∷ lit "n2" ∷ []))
          (lit "n1" ∷ lit "n2" ∷ []))
search_in-matches_example =
    search_in-matches ascii some_notes (red_tag ∷ []) (λ k. k == 1) (lit "n1" ∷ lit "n2" ∷ [])

run-IsReport_example : IsReport (run ascii some_notes (lit "red ca*") (λ k. k == 1))
run-IsReport_example = run-IsReport ascii some_notes (lit "red ca*") (λ k. k == 1) (omega arith)

run-matches_example :
    matches_of (run ascii some_notes (lit "red") (λ k. false))
    ≡ keep (is_hit ascii some_notes (parse_query ascii (lit "red"))) (lit "n1" ∷ lit "n2" ∷ [])
unfolding notebooks_in_query parse_query read_char has_qualifier text_dec
run-matches_example = run-matches ascii some_notes (lit "red") (λ k. false) (λ k. refl) refl
