-- ===== src/Login/Reply/RoundTrip.antt =====
-- What replyTextToMap reads from a reply (src/cloud/evernote/evernotesync/evernoteoauth.cpp).
use notekeeper_open.Base.{
  ◌≡◌, ◌≢◌, refl, ap, ◌∙◌, List, [], ◌∷◌, map, QString, All, All-append, update, arith,
}
use notekeeper_open.Base.Split.{split, join, IsFree, split-join}
use notekeeper_open.Login.Reply.{
  ReplyMap, insert_parts, reply_loop, reply_text_to_map, Pair, IsPlainPair, print_pair, print_reply,
  last_of,
}

insert_parts-print_pair :
    (decode : QString → QString) (m : ReplyMap) (p : Pair)
    → IsPlainPair p
    → insert_parts decode m (split b'=' (print_pair p)) ≡ update m p.0 (decode p.1)
unfolding insert_parts
insert_parts-print_pair decode m (k, t) h =
    ap (insert_parts decode m) (split-join b'=' k (t ∷ []) (h.0.1, (h.1.1, tt)))

reply_loop-last_of :
    (decode : QString → QString) (m : ReplyMap) (ps : List Pair) (key : QString)
    → All IsPlainPair ps
    → reply_loop decode m (map print_pair ps) key ≡ last_of decode ps key (m key)
unfolding reply_loop last_of update
reply_loop-last_of decode m [] key h = refl
reply_loop-last_of decode m (p ∷ ps) key h =
    ap (λ (m' : ReplyMap). reply_loop decode m' (map print_pair ps) key)
      (insert_parts-print_pair decode m p h.0)
    ∙ reply_loop-last_of decode (update m p.0 (decode p.1)) ps key h.1

print_pair-IsFree : (p : Pair) → IsPlainPair p → IsFree b'&' (print_pair p)
unfolding join
print_pair-IsFree (k, t) h = All-append (λ c. c ≢ b'&') k _ h.0.0 (omega arith, h.1.0)

map-print_pair-IsFree :
    (ps : List Pair) → All IsPlainPair ps → All (IsFree b'&') (map print_pair ps)
map-print_pair-IsFree [] h = tt
map-print_pair-IsFree (p ∷ ps) h = (print_pair-IsFree p h.0, map-print_pair-IsFree ps h.1)

-- From a reply of pairs joined by ampersands, whose keys and texts hold neither ampersands nor equals
-- signs, replyTextToMap gives for each key the decoded text of the last pair with that key, and
-- an empty text for a key without a pair.
pub reply_text_to_map-print_reply :
    (decode : QString → QString) (ps : List Pair) (key : QString)
    → All IsPlainPair ps
    → reply_text_to_map decode (print_reply ps) key ≡ last_of decode ps key []
unfolding reply_text_to_map print_reply last_of split join
reply_text_to_map-print_reply decode [] key h = refl
reply_text_to_map-print_reply decode (p ∷ ps) key h =
    rw (split-join b'&' (print_pair p) (map print_pair ps) (map-print_pair-IsFree (p ∷ ps) h))
      (reply_loop-last_of decode (λ k. []) (p ∷ ps) key h)
