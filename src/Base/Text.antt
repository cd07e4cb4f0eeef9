-- ===== src/Base/Text.antt =====
-- QString as the sequence of its UTF-16 code units, QStringList as a list of those, with the
-- container operations that the sources call.
use Prim.Native.Char.{code}
use Prim.Native.Nat.{ℕ, suc}
use Prim.Native.String.{String}
use mathlib.Core.Path.{◌≡◌, refl, ap₂}
use mathlib.Core.Logic.{ite}
use mathlib.Core.List.{List, [], ◌∷◌}
use mathlib.Core.Bool.{Bool, true, false}
use mathlib.Core.Option.{Option, none, some}
use native.Mathlib.Decide.{ℕ_discrete}

abbrev pub QString : Type 0
QString = List ℕ

-- A literal of the source.
abbrev pub lit : String → QString
lit String.[] = []
lit (String.◌∷◌ c s) = code c ∷ lit s

join_dec : (x y : ℕ) (xs ys : QString) → Dec (x ≡ y) → Dec (xs ≡ ys) → Dec (x ∷ xs ≡ y ∷ ys)
join_dec x y xs ys (yes p) (yes q) = yes (ap₂ ◌∷◌ p q)
join_dec x y xs ys (yes p) (no q) = no (λ e. q (cc))
join_dec x y xs ys (no p) q = no (λ e. p (cc))

-- Two texts are compared unit by unit.
unfoldable pub text_dec : Discrete QString
unfolding join_dec ℕ_discrete
text_dec [] [] = yes refl
text_dec [] (y ∷ ys) = no (λ e. cc)
text_dec (x ∷ xs) [] = no (λ e. cc)
text_dec (x ∷ xs) (y ∷ ys) = join_dec x y xs ys (ℕ_discrete x y) (text_dec xs ys)

abbrev pub text_eq : QString → QString → Bool
text_eq a b = ite (text_dec a b) true false

-- QStringList::contains and QStringList::indexOf.
unfoldable pub contains : List QString → QString → Bool
unfolding text_dec
contains [] a = false
contains (x ∷ xs) a = ite (text_dec x a) true (contains xs a)

unfoldable pub index_of : List QString → QString → Option ℕ
unfolding text_dec
index_of [] a = none
index_of (x ∷ xs) a =
    let rest = index_of xs a in
    ite (text_dec x a) (some 0) (elim rest [ none ↦ none | some i ↦ some (suc i) ])

-- No text stands twice.
abbrev pub IsDistinct : List QString → Type 0
IsDistinct [] = Unit
IsDistinct (x ∷ xs) = (contains xs x ≡ false) × IsDistinct xs

-- A map from texts, and a write to it.
unfoldable pub update {ℓ} : {A : Type ℓ} → (QString → A) → QString → A → QString → A
unfolding text_dec
update f i v j = ite (text_dec i j) v (f j)
