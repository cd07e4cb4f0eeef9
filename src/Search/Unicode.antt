-- ===== src/Search/Unicode.antt =====
-- What the search takes from QChar and QString: Unicode categories, simplification and case
-- folding, as parameters with the documented facts that the search relies on.
use notekeeper_open.Base.{ℕ, ◌≡◌, Bool, false, QString}

pub record Unicode : Type 0 where
  pub is_letter_or_number : ℕ → Bool
  pub is_space : ℕ → Bool
  pub is_punct : ℕ → Bool
  pub is_symbol : ℕ → Bool
  pub simplified : QString → QString
  pub fold : ℕ → ℕ
  -- The ASCII characters of the query syntax are neither letters nor numbers.
  pub space_other : is_letter_or_number b' ' ≡ false
  pub colon_other : is_letter_or_number b':' ≡ false
  pub quote_other : is_letter_or_number b'"' ≡ false
  pub minus_other : is_letter_or_number b'-' ≡ false
