-- ===== src/Common/Status/Post.antt =====
-- Postconditions on results: `P` of the value, `E` of the error code.
use matt_sql.Common.Status.{ErrorCode, Result, ok, err, ◌>>=◌}

pub data Post {ℓ} {A : Type ℓ} (P : A → Type ℓ) (E : ErrorCode → Type ℓ) : Result A → Type ℓ where
  returns : {a : A} → P a → Post P E (ok a)
  throws : {e : ErrorCode} → E e → Post P E (err e)

module _ {ℓ} {A : Type ℓ} {P : A → Type ℓ} {E : ErrorCode → Type ℓ} where
  infixl 1 ◌⟫◌
  pub ◌⟫◌ :
      {B : Type ℓ} {Q : B → Type ℓ} {r : Result A} {next : A → Result B}
      → Post P E r
      → ((a : A) → P a → Post Q E (next a))
      → Post Q E (r >>= next)
  returns {a} h ⟫ step = step a h
  throws h ⟫ step = throws h

  pub weaken_errors :
      {F : ErrorCode → Type ℓ} {r : Result A}
      → ((e : ErrorCode) → E e → F e)
      → Post P E r
      → Post P F r
  weaken_errors g (returns h) = returns h
  weaken_errors g (throws h) = throws (g _ h)
