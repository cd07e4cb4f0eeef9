-- ===== src/Base/Split.antt =====
-- QString::split and QStringList::join, by which the ini files hold lists of ids.
use notekeeper_open.Base.{
  ℕ, ◌≡◌, refl, ap, ◌≢◌, false, List, [], ◌∷◌, ◌++◌, arith, QString, All, is_empty, ◌==◌, ==_iff,
  if◌then◌else◌, Bool-cases, inl, inr, ◌∙◌, ap₂, sym,
}

cons_head : ℕ → List QString → List QString
cons_head c [] = (c ∷ []) ∷ []
cons_head c (p ∷ ps) = (c ∷ p) ∷ ps

-- An empty text splits into one empty part.
unfoldable pub split : ℕ → QString → List QString
unfolding cons_head
split sep [] = [] ∷ []
split sep (c ∷ s) = let rest = split sep s in if c == sep then [] ∷ rest else cons_head c rest

unfoldable pub join : ℕ → List QString → QString
join sep [] = []
join sep (p ∷ []) = p
join sep (p ∷ q ∷ ps) = p ++ (sep ∷ join sep (q ∷ ps))

-- The text has no separator.
abbrev pub IsFree : ℕ → QString → Type 0
IsFree sep s = All (λ c. c ≢ sep) s

split-ne-nil : (sep : ℕ) (s : QString) → split sep s ≢ []
unfolding split
split-ne-nil sep [] = cc
split-ne-nil sep (c ∷ s) = ground (arith, split-ne-nil sep s)

pub split-append :
    (sep : ℕ) (p s : QString) → IsFree sep p → split sep (p ++ (sep ∷ s)) ≡ p ∷ split sep s
unfolding split
split-append sep [] s h = ground arith
split-append sep (c ∷ p) s h = ground (arith, split-append sep p s h.1)

split_free : (sep : ℕ) (p : QString) → IsFree sep p → split sep p ≡ p ∷ []
unfolding split
split_free sep [] h = refl
split_free sep (c ∷ p) h = ground (arith, split_free sep p h.1)

-- A list of parts is read back as it was written.
pub split-join :
    (sep : ℕ) (p : QString) (ps : List QString)
    → All (IsFree sep) (p ∷ ps)
    → split sep (join sep (p ∷ ps)) ≡ p ∷ ps
unfolding join
split-join sep p [] h = split_free sep p h.0
split-join sep p (q ∷ ps) h =
    split-append sep p (join sep (q ∷ ps)) h.0 ∙ ap (◌∷◌ p) (split-join sep q ps h.1)

join-cons_head :
    (sep c : ℕ) (ps : List QString) → ps ≢ [] → join sep (cons_head c ps) ≡ c ∷ join sep ps
unfolding join cons_head
join-cons_head sep c [] h = absurd (h refl)
join-cons_head sep c (p ∷ []) h = refl
join-cons_head sep c (p ∷ q ∷ ps) h = refl

join-nil_cons : (sep : ℕ) (ps : List QString) → ps ≢ [] → join sep ([] ∷ ps) ≡ sep ∷ join sep ps
unfolding join
join-nil_cons sep [] h = absurd (h refl)
join-nil_cons sep (p ∷ ps) h = refl

pub join-split : (sep : ℕ) (s : QString) → join sep (split sep s) ≡ s
unfolding split
join-split sep [] = unfold join in refl
join-split sep (c ∷ s) = elim (Bool-cases (c == sep)) [
  | inl e ↦ rw e (
      join-nil_cons sep (split sep s) (split-ne-nil sep s)
      ∙ ap₂ ◌∷◌ (sym ((==_iff c sep).0 e)) (join-split sep s))
  | inr e ↦
      rw e (join-cons_head sep c (split sep s) (split-ne-nil sep s) ∙ ap (◌∷◌ c) (join-split sep s))
]

All-IsFree-cons_head :
    (sep c : ℕ) (ps : List QString)
    → c ≢ sep
    → All (IsFree sep) ps
    → All (IsFree sep) (cons_head c ps)
unfolding cons_head
All-IsFree-cons_head sep c [] h a = ((h, tt), tt)
All-IsFree-cons_head sep c (p ∷ ps) h a = ((h, a.0), a.1)

pub split-IsFree : (sep : ℕ) (s : QString) → All (IsFree sep) (split sep s)
unfolding split
split-IsFree sep [] = (tt, tt)
split-IsFree sep (c ∷ s) = elim (Bool-cases (c == sep)) [
  | inl e ↦ rw e (tt, split-IsFree sep s)
  | inr e ↦ rw e (All-IsFree-cons_head sep c (split sep s) (ground arith) (split-IsFree sep s))
]

-- A list of ids as an ini file holds it: an empty text is the empty list.
unfoldable pub ids_of : QString → List QString
ids_of s = if is_empty s then [] else split b',' s

-- Ids are not empty and hold no comma.
abbrev pub IsId : QString → Type 0
IsId s = (is_empty s ≡ false) × IsFree b',' s

join-ne-nil :
    (sep : ℕ) (p : QString) (ps : List QString)
    → is_empty p ≡ false
    → is_empty (join sep (p ∷ ps)) ≡ false
unfolding join
join-ne-nil sep [] ps h = cc
join-ne-nil sep (c ∷ p) [] h = refl
join-ne-nil sep (c ∷ p) (q ∷ ps) h = refl

All-IsId-IsFree : (ps : List QString) → All IsId ps → All (IsFree b',') ps
All-IsId-IsFree [] h = tt
All-IsId-IsFree (p ∷ ps) h = (h.0.1, All-IsId-IsFree ps h.1)

-- Ids written to an ini file are read back.
pub ids_of-join : (ps : List QString) → All IsId ps → ids_of (join b',' ps) ≡ ps
unfolding ids_of
ids_of-join [] h = unfold join in refl
ids_of-join (p ∷ ps) h =
    rw (join-ne-nil b',' p ps h.0.0) (split-join b',' p ps (All-IsId-IsFree (p ∷ ps) h))
