-- ===== src/Base/Members.antt =====
-- QStringList::contains, indexOf, removeAt, removeOne and removeAll, and how they agree.
use notekeeper_open.Base.{
  ℕ, zero, suc, ◌≡◌, refl, ◌&&◌, ◌||◌, Bool, true, false, none, some, List, [], ◌∷◌, ◌++◌, QString,
  arith, text_dec, text_eq, contains, index_of, remove_at, insert_at, IsDistinct, ite, if_pos,
  if_neg, keep, if◌then◌else◌, Bool-cases, inl, inr, keep_yes, keep_no,
}

-- QStringList::removeOne drops the first occurrence; removeAll drops each.
unfoldable pub remove_one : List QString → QString → List QString
unfolding text_dec
remove_one [] a = []
remove_one (x ∷ xs) a = let rest = remove_one xs a in ite (text_dec x a) xs (x ∷ rest)

unfoldable pub remove_all : List QString → QString → List QString
unfolding text_dec
remove_all [] a = []
remove_all (x ∷ xs) a = let rest = remove_all xs a in ite (text_dec x a) rest (x ∷ rest)

pub text_eq_refl : (a : QString) → text_eq a a ≡ true
text_eq_refl a = ground (arith, text_dec a a)

pub index_of-none : (xs : List QString) (a : QString) → index_of xs a ≡ none → contains xs a ≡ false
unfolding index_of contains
index_of-none [] a h = refl
index_of-none (x ∷ xs) a h = ground (arith, index_of-none xs a)

pub index_of-some :
    (xs : List QString) (a : QString) (i : ℕ)
    → index_of xs a ≡ some i
    → (contains xs a ≡ true) × (remove_at i xs ≡ remove_one xs a)
unfolding index_of contains remove_one
index_of-some [] a i h = cc
index_of-some (x ∷ xs) a zero h = ground arith
index_of-some (x ∷ xs) a (suc i) h = ground (arith, index_of-some xs a i)

pub contains-insert_at :
    (i : ℕ) (a : QString) (xs : List QString) (b : QString)
    → contains (insert_at i a xs) b ≡ (text_eq a b || contains xs b)
unfolding contains
contains-insert_at zero a xs b = ground arith
contains-insert_at (suc i) a [] b = ground arith
contains-insert_at (suc i) a (x ∷ xs) b = ground (arith, contains-insert_at i a xs b)

pub insert_at-IsDistinct :
    (i : ℕ) (a : QString) (xs : List QString)
    → contains xs a ≡ false
    → IsDistinct xs
    → IsDistinct (insert_at i a xs)
unfolding contains
insert_at-IsDistinct zero a xs h d = (h, d)
insert_at-IsDistinct (suc i) a [] h d = (h, d)
insert_at-IsDistinct (suc i) a (x ∷ xs) h d =
    (ground (arith, contains-insert_at i a xs x), insert_at-IsDistinct i a xs (ground arith) d.1)

pub remove_one_absent :
    (xs : List QString) (a : QString) → contains xs a ≡ false → remove_one xs a ≡ xs
unfolding contains remove_one
remove_one_absent [] a h = refl
remove_one_absent (x ∷ xs) a h = ground (arith, remove_one_absent xs a)

pub contains-remove_one :
    (xs : List QString) (a b : QString)
    → IsDistinct xs
    → contains (remove_one xs a) b ≡ (if text_eq a b then false else contains xs b)
unfolding contains remove_one
contains-remove_one [] a b d = ground arith
contains-remove_one (x ∷ xs) a b d = ground (arith, contains-remove_one xs a b d.1)

pub remove_one-IsDistinct :
    (xs : List QString) (a : QString) → IsDistinct xs → IsDistinct (remove_one xs a)
unfolding contains remove_one
remove_one-IsDistinct [] a d = tt
remove_one-IsDistinct (x ∷ xs) a d = elim (text_dec x a) [
  | yes p ↦ rw (if_pos _ p) d.1
  | no p ↦
      rw (if_neg _ p)
        (ground (arith, contains-remove_one xs a x d.1), remove_one-IsDistinct xs a d.1)
]

pub contains-keep :
    (p : QString → Bool) (xs : List QString) (b : QString)
    → contains (keep p xs) b ≡ (p b && contains xs b)
unfolding contains
contains-keep p [] b = ground arith
contains-keep p (x ∷ xs) b = ground (arith, contains-keep p xs b)

pub keep-IsDistinct :
    (p : QString → Bool) (xs : List QString) → IsDistinct xs → IsDistinct (keep p xs)
keep-IsDistinct p [] d = tt
keep-IsDistinct p (x ∷ xs) d = elim (Bool-cases (p x)) [
  | inl e ↦ rw (keep_yes p x xs e) (ground (arith, contains-keep p xs x), keep-IsDistinct p xs d.1)
  | inr e ↦ rw (keep_no p x xs e) (keep-IsDistinct p xs d.1)
]

pub remove_one-contains :
    (xs : List QString) (a b : QString) → contains (remove_one xs a) b ≡ true → contains xs b ≡ true
unfolding contains remove_one
remove_one-contains [] a b h = h
remove_one-contains (x ∷ xs) a b h = ground (arith, remove_one-contains xs a b)

pub contains-append :
    (xs ys : List QString) (a : QString) → contains (xs ++ ys) a ≡ (contains xs a || contains ys a)
unfolding contains
contains-append [] ys a = ground arith
contains-append (x ∷ xs) ys a = ground (arith, contains-append xs ys a)

pub append-IsDistinct :
    (xs ys : List QString)
    → IsDistinct xs
    → IsDistinct ys
    → ((a : QString) → contains ys a ≡ true → contains xs a ≡ false)
    → IsDistinct (xs ++ ys)
unfolding contains
append-IsDistinct [] ys dx dy h = dy
append-IsDistinct (x ∷ xs) ys dx dy h = (
  ground (arith, contains-append xs ys x, h x, text_eq_refl x),
  append-IsDistinct xs ys dx.1 dy (λ a k. ground (arith, h a k)),
)
