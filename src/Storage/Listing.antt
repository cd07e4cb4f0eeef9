-- ===== src/Storage/Listing.antt =====
-- Lists for the user interface, in the order of the names: listNotebooks, listTags and
-- listTagsChecked, of src/storage/storagemanager.cpp. A QMap is a list of keys and values in the order
-- of its keys.
use notekeeper_open.Base.{
  Bool, true, false, ◌==◌, ltb, List, [], ◌∷◌, ◌++◌, map, QString, is_empty, contains, text_eq,
  if◌then◌else◌,
}
use notekeeper_open.Storage.Ini.{
  note_gist, notebooks_list, tags_list, notebook_ini, tag_ini, notebook_ids, tag_ids, name, Store,
  to_string, value,
}
use notekeeper_open.Storage.Collection.{ids_list}

-- QString's operator <, by code units.
unfoldable pub text_lt : QString → QString → Bool
text_lt [] [] = false
text_lt [] (d ∷ t) = true
text_lt (c ∷ a) [] = false
text_lt (c ∷ a) (d ∷ t) = let rest = text_lt a t in if c == d then rest else ltb c d

-- QMap::insert: a value with the same key is replaced.
unfoldable pub map_insert {ℓ} : {A : Type ℓ} → QString → A → List (QString × A) → List (QString × A)
unfolding text_lt
map_insert k v [] = (k, v) ∷ []
map_insert k v ((k', v') ∷ m) =
    let rest = map_insert k v m in
    if text_eq k k'
    then (k, v) ∷ m
    else if text_lt k k'
    then (k, v) ∷ (k', v') ∷ m
    else (k', v') ∷ rest

pub data NotebookEntry : Type 0 where
  favourites trash : NotebookEntry
  -- The id and the name.
  normal : QString → QString → NotebookEntry

-- The types of notebooks that are asked for.
pub record NotebookTypes : Type 0 where
  pub with_favourites : Bool
  pub with_normal : Bool
  pub with_trash : Bool

module _ (to_lower : QString → QString) where
  order_notebooks :
      Store → List QString → List (QString × NotebookEntry) → List (QString × NotebookEntry)
  unfolding map_insert
  order_notebooks s [] m = m
  order_notebooks s (b ∷ bs) m =
      let title = to_string (value s (notebook_ini b) name) in
      order_notebooks s bs (map_insert (to_lower title) (normal b title) m)

  unfoldable pub list_notebooks : Store → NotebookTypes → List NotebookEntry
  unfolding order_notebooks ids_list
  list_notebooks s types =
      (if types.with_favourites then favourites ∷ [] else [])
      ++ (if types.with_normal
          then map (λ (e : QString × NotebookEntry). e.1)
              (order_notebooks s (ids_list s notebooks_list notebook_ids) [])
          else [])
      ++ (if types.with_trash then trash ∷ [] else [])

  -- The id, the name, and whether it is checked.
  abbrev pub TagEntry : Type 0
  TagEntry = QString × QString × Bool

  order_tags :
      Store → List QString → List QString → List (QString × TagEntry) → List (QString × TagEntry)
  unfolding map_insert
  order_tags s checked [] m = m
  order_tags s checked (t ∷ ts) m =
      let title = to_string (value s (tag_ini t) name) in
      order_tags s checked ts (map_insert (to_lower title) (t, title, contains checked t) m)

  unfoldable pub list_tags_checked : Store → List QString → List QString → List TagEntry
  unfolding order_tags
  list_tags_checked s ids checked =
      map (λ (e : QString × TagEntry). e.1) (order_tags s checked ids [])

  unfoldable pub list_tags : Store → List TagEntry
  unfolding list_tags_checked ids_list
  list_tags s = list_tags_checked s (ids_list s tags_list tag_ids) []

  -- A QSet of the note's tags is the list of them.
  unfoldable pub list_tags_with_tags_on_note_checked : Store → QString → List TagEntry
  unfolding list_tags_checked list_tags ids_list
  list_tags_with_tags_on_note_checked s note_id =
      if is_empty note_id
      then list_tags s
      else list_tags_checked s (ids_list s tags_list tag_ids)
          (ids_list s (note_gist note_id) tag_ids)
