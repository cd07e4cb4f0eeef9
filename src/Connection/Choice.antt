-- ===== src/Connection/Choice.antt =====
-- Which access point chooseIapConfiguration of src/connectionmanager.cpp chooses.
use notekeeper_open.Base.{
  ℕ, zero, suc, ◌≡◌, ◌≤◌, refl, ◌⊎◌, subst, if_yes, true, false, some, List, [], ◌∷◌, get_elem?,
  arith, if◌then◌else◌, inl, inr, Bool-cases,
}
use notekeeper_open.Connection.Configuration.{
  Configuration, no_configuration, BearerType, bearer_unknown, bearer_wlan, discovered, active,
  fits, choose_with, choose_iap_configuration,
}

-- How much a configuration is wanted: an active access point most, then one over Wi-Fi that is in
-- range, then any that is in range.
unfoldable pub rank : Configuration → ℕ
rank c =
    if fits active bearer_unknown c
    then 3
    else if fits discovered bearer_wlan c
    then 2
    else if fits discovered bearer_unknown c
    then 1
    else 0

-- What holds of each configuration of a list.
abbrev pub Each : List Configuration → (Configuration → Type 0) → Type 0
Each cs P = (i : ℕ) (c : Configuration) → get_elem? cs i ≡ some c → P c

abbrev pub IsBestOf : List Configuration → Configuration → Type 0
IsBestOf cs best =
    Each cs (λ c. rank c ≤ rank best)
    × ((best.is_valid ≡ false) ⊎ (i : ℕ) × (get_elem? cs i ≡ some best))

-- Either none fits, or the one chosen stands in the list and fits.
data Chosen (cs : List Configuration) (flags : ℕ) (kind : BearerType) : Type 0 where
  none_fits :
      choose_with cs flags kind ≡ no_configuration
      → Each cs (λ c. fits flags kind c ≡ false)
      → Chosen cs flags kind
  one_fits :
      (i : ℕ)
      → get_elem? cs i ≡ some (choose_with cs flags kind)
      → fits flags kind (choose_with cs flags kind) ≡ true
      → Chosen cs flags kind

Each-cons :
    (P : Configuration → Type 0) (c : Configuration) (cs : List Configuration)
    → P c
    → Each cs P
    → Each (c ∷ cs) P
Each-cons P c cs h k zero d e = subst P (cc) h
Each-cons P c cs h k (suc i) d e = k i d e

choose_with-Chosen :
    (cs : List Configuration) (flags : ℕ) (kind : BearerType) → Chosen cs flags kind
unfolding choose_with
choose_with-Chosen [] flags kind = none_fits refl (λ i c h. cc)
choose_with-Chosen (c ∷ cs) flags kind = elim (Bool-cases (fits flags kind c)) [
  | inl e ↦ one_fits 0 (rw e refl) (rw (if_yes c (choose_with cs flags kind) e) e)
  | inr e ↦ elim (choose_with-Chosen cs flags kind) [
    | none_fits p q ↦ none_fits (rw e p) (Each-cons (λ d. fits flags kind d ≡ false) c cs e q)
    | one_fits i p q ↦ one_fits (suc i) (rw e p) (rw e q)
  ]
]

module _ (cs : List Configuration) (v : Each cs (λ c. c.is_valid ≡ true)) where
  active_chosen :
      Chosen cs active bearer_unknown
      → Chosen cs discovered bearer_wlan
      → Chosen cs discovered bearer_unknown
      → IsBestOf cs (choose_iap_configuration cs)
  unfolding choose_iap_configuration rank
  active_chosen (one_fits i p q) w r =
      let best : choose_iap_configuration cs ≡ choose_with cs active bearer_unknown =
        if_yes _ _ (v i _ p) in
      rw best (λ j c h. ground arith, inr (i, p))
  active_chosen (none_fits p none_active) (one_fits i p₁ q₁) r =
      let best : choose_iap_configuration cs ≡ choose_with cs discovered bearer_wlan =
        ground (arith, v i _ p₁) in
      rw best (λ j c h. ground (arith, none_active j c h), inr (i, p₁))
  active_chosen (none_fits p none_active) (none_fits p₁ none_wlan) (one_fits i p₂ q₂) =
      let best : choose_iap_configuration cs ≡ choose_with cs discovered bearer_unknown =
        ground (arith, v i _ p₂) in
      rw best (λ j c h. ground (arith, none_active j c h, none_wlan j c h), inr (i, p₂))
  active_chosen (none_fits p none_active) (none_fits p₁ none_wlan) (none_fits p₂ none_near) =
      let best : choose_iap_configuration cs ≡ no_configuration = ground arith in
      rw best
        (λ j c h. ground (arith, none_active j c h, none_wlan j c h, none_near j c h), inl refl)

  -- A configuration chosen among valid ones is not worse than any of them, and if it is valid itself
  -- it is one of them.
  pub choose_iap_configuration-IsBestOf : IsBestOf cs (choose_iap_configuration cs)
  choose_iap_configuration-IsBestOf =
      active_chosen (choose_with-Chosen cs active bearer_unknown)
        (choose_with-Chosen cs discovered bearer_wlan)
        (choose_with-Chosen cs discovered bearer_unknown)
