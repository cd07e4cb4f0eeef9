-- ===== src/Login/Reply.antt =====
-- replyTextToMap of src/cloud/evernote/evernotesync/evernoteoauth.cpp. A QByteArray is the list of its
-- bytes, and the QMap is the function that value() asks, empty for a key that is missing.
pub mod RoundTrip
use notekeeper_open.Base.{List, [], ◌∷◌, map, QString, ite, text_dec, update}
use notekeeper_open.Base.Split.{split, join, IsFree}

abbrev pub ReplyMap : Type 0
ReplyMap = QString → QString

-- A component counts if it has two parts; a later one replaces an earlier one of the same key.
unfoldable pub insert_parts : (QString → QString) → ReplyMap → List QString → ReplyMap
insert_parts decode m (key ∷ text ∷ []) = update m key (decode text)
insert_parts decode m _ = m

unfoldable pub reply_loop : (QString → QString) → ReplyMap → List QString → ReplyMap
unfolding insert_parts
reply_loop decode m [] = m
reply_loop decode m (c ∷ cs) = reply_loop decode (insert_parts decode m (split b'=' c)) cs

-- `decode` is QByteArray::fromPercentEncoding.
unfoldable pub reply_text_to_map : (QString → QString) → QString → ReplyMap
unfolding reply_loop
reply_text_to_map decode reply_text = reply_loop decode (λ key. []) (split b'&' reply_text)

-- A reply of the server: its pairs of a key and an encoded text, which hold no separator.
abbrev pub Pair : Type 0
Pair = QString × QString

abbrev pub IsPlain : QString → Type 0
IsPlain s = IsFree b'&' s × IsFree b'=' s

abbrev pub IsPlainPair : Pair → Type 0
IsPlainPair p = IsPlain p.0 × IsPlain p.1

abbrev pub print_pair : Pair → QString
print_pair p = join b'=' (p.0 ∷ p.1 ∷ [])

unfoldable pub print_reply : List Pair → QString
print_reply ps = join b'&' (map print_pair ps)

-- What the last pair of a key gives, decoded, and `otherwise` without one.
unfoldable pub last_of : (QString → QString) → List Pair → QString → QString → QString
last_of decode [] key otherwise = otherwise
last_of decode ((k, t) ∷ ps) key otherwise =
    last_of decode ps key (ite (text_dec k key) (decode t) otherwise)
