-- ===== src/Storage/Recents.antt =====
-- Recent searches: setRecentSearchQuery, recentSearchQueries and clearRecentSearchQueries of
-- src/storage/storagemanager.cpp.
pub mod Bounds
use notekeeper_open.Base.{
  ℕ, zero, suc, Bool, Option, none, some, List, [], ◌∷◌, QString, is_empty, length, take, remove_at,
  if◌then◌else◌,
}
use notekeeper_open.Storage.Signals.{Qt}
use notekeeper_open.Storage.Ini.{
  recents_ini, recent_searches, Store, texts, to_string_list, value, set_value, remove_key,
}

-- The position of the first entry that a test accepts.
unfoldable pub index_where : (QString → Bool) → List QString → ℕ → Option ℕ
index_where p [] i = none
index_where p (x ∷ xs) i = let later = index_where p xs (suc i) in if p x then some i else later

abbrev pub max_recent_searches : ℕ
max_recent_searches = 10

-- The list with a query in front: what it becomes when the query stands at that position, if at all.
-- Last entries are taken off while there are more than ten.
unfoldable pub with_query : QString → List QString → Option ℕ → List QString
with_query query recents (some zero) = recents
with_query query recents (some (suc i)) = query ∷ remove_at (suc i) recents
with_query query recents none = take max_recent_searches (query ∷ recents)

unfoldable pub recent_search_queries : Store → List QString
recent_search_queries s = to_string_list (value s recents_ini recent_searches)

unfoldable pub write_recents : Store → QString → Option ℕ → Store
unfolding with_query recent_search_queries set_value
write_recents s query (some zero) = s
write_recents s query (some (suc i)) =
    set_value s recents_ini recent_searches
      (texts (with_query query (recent_search_queries s) (some (suc i))))
write_recents s query none =
    set_value s recents_ini recent_searches
      (texts (with_query query (recent_search_queries s) none))

unfoldable pub set_recent_search_query : Qt → Store → QString → Store
unfolding index_where write_recents recent_search_queries
set_recent_search_query qt s raw_query =
    let query = qt.simplified raw_query in
    if is_empty query
    then s
    else write_recents s query
        (index_where (qt.equals_ignoring_case query) (recent_search_queries s) 0)

unfoldable pub clear_recent_search_queries : Store → Store
unfolding remove_key
clear_recent_search_queries s = remove_key s recents_ini recent_searches
