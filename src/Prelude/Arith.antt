-- ===== src/Prelude/Arith.antt =====
-- Quotients against products, in the form in which overflow tests use them.
use matt_sql.Prelude.{ℕ, ◌*◌, ◌/◌, ◌<◌, ◌≡◌, arith, ltb}
use native.Mathlib.Nat.{div-lt_iff_lt-mul}

-- `m / b < a` is `m < a * b`.
pub ltb-div : (m a b : ℕ) → 0 < b → ltb (m / b) a ≡ ltb m (a * b)
ltb-div m a b h = ground (
  arith,
  (div-lt_iff_lt-mul {k = b} {x = m} {y = a} h).0,
  (div-lt_iff_lt-mul {k = b} {x = m} {y = a} h).1,
)
