-- ===== src/Storage/Recents/Bounds.antt =====
-- The list of recent searches: its length, and which query stands in front.
use notekeeper_open.Base.{
  ℕ, zero, suc, ◌+◌, ◌≤◌, ◌<◌, ◌≡◌, refl, Bool, true, false, Option, none, some, List, [], ◌∷◌,
  QString, is_empty, length, take, length-remove_at, get_elem?, arith, Bool-cases, inl, inr,
}
use notekeeper_open.Storage.Signals.{Qt}
use notekeeper_open.Storage.Ini.{Store, value, set_value}
use notekeeper_open.Storage.Recents.{
  index_where, with_query, recent_search_queries, write_recents, set_recent_search_query,
}

-- What the store holds after a query is written.
recent_search_queries-write :
    (s : Store) (query : QString) (o : Option ℕ)
    → recent_search_queries (write_recents s query o) ≡ with_query query (recent_search_queries s) o
unfolding write_recents recent_search_queries with_query value set_value
recent_search_queries-write s query (some zero) = refl
recent_search_queries-write s query (some (suc i)) = refl
recent_search_queries-write s query none = refl

length-take : (n : ℕ) (xs : List QString) → length (take n xs) ≤ n
length-take zero xs = omega arith
length-take (suc n) [] = omega arith
length-take (suc n) (x ∷ xs) = omega (arith, length-take n xs)

index_where-range :
    (p : QString → Bool) (xs : List QString) (i j : ℕ)
    → index_where p xs i ≡ some j
    → (i ≤ j) × (j < i + length xs)
unfolding index_where
index_where-range p [] i j h = cc
index_where-range p (x ∷ xs) i j h = ground (arith, index_where-range p xs (suc i) j)

with_query-bound :
    (query : QString) (xs : List QString) (o : Option ℕ)
    → ((j : ℕ) → o ≡ some j → j < length xs)
    → length xs ≤ 10
    → length (with_query query xs o) ≤ 10
unfolding with_query
with_query-bound query xs (some zero) r h = h
with_query-bound query xs (some (suc i)) r h =
    omega (arith, length-remove_at (suc i) xs (r (suc i) refl))
with_query-bound query xs none r h = length-take 10 (query ∷ xs)

-- The list of recent searches never grows beyond ten, when it has not before.
pub set_recent_search_query_bound :
    (qt : Qt) (s : Store) (raw_query : QString)
    → length (recent_search_queries s) ≤ 10
    → length (recent_search_queries (set_recent_search_query qt s raw_query)) ≤ 10
unfolding set_recent_search_query
set_recent_search_query_bound qt s raw_query h =
    let query = qt.simplified raw_query in
    let xs = recent_search_queries s in
    let o = index_where (qt.equals_ignoring_case query) xs 0 in
    elim (Bool-cases (is_empty query)) [
      | inl e ↦ rw e h
      | inr e ↦
          rw (e, recent_search_queries-write s query o)
            (with_query-bound query xs o
              (λ j q. omega (arith, (index_where-range (qt.equals_ignoring_case query) xs 0 j q).1))
              h)
    ]

index_where-zero :
    (p : QString → Bool) (xs : List QString)
    → index_where p xs 0 ≡ some 0
    → (x : QString) × (get_elem? xs 0 ≡ some x) × (p x ≡ true)
unfolding index_where
index_where-zero p [] h = cc
index_where-zero p (x ∷ xs) h = (
  x,
  refl,
  elim (Bool-cases (p x)) [
    | inl q ↦ q
    | inr q ↦ absurd (omega (arith, (index_where-range p xs 1 0 (ground (arith, q, h))).0))
  ],
)

with_query-front :
    (p : QString → Bool) (query : QString) (xs : List QString)
    → p query ≡ true
    → (o : Option ℕ) → index_where p xs 0 ≡ o
    → (x : QString) × (get_elem? (with_query query xs o) 0 ≡ some x) × (p x ≡ true)
unfolding with_query
with_query-front p query xs r (some zero) h = index_where-zero p xs h
with_query-front p query xs r (some (suc i)) h = (query, refl, r)
with_query-front p query xs r none h = (query, refl, r)

-- The query that was searched for stands in front, up to its case, when it is not blank and a text
-- equals itself ignoring the case.
pub set_recent_search_query_front :
    (qt : Qt) (s : Store) (raw_query : QString)
    → is_empty (qt.simplified raw_query) ≡ false
    → ((t : QString) → qt.equals_ignoring_case t t ≡ true)
    → (x : QString) × (get_elem? (recent_search_queries (set_recent_search_query qt s raw_query)) 0
        ≡ some x)
      × (qt.equals_ignoring_case (qt.simplified raw_query) x ≡ true)
unfolding set_recent_search_query
set_recent_search_query_front qt s raw_query e r =
    let query = qt.simplified raw_query in
    let xs = recent_search_queries s in
    rw (e, recent_search_queries-write s query (index_where (qt.equals_ignoring_case query) xs 0))
      (with_query-front (qt.equals_ignoring_case query) query xs (r query)
        (index_where (qt.equals_ignoring_case query) xs 0) refl)
