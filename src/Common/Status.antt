-- ===== src/Common/Status.antt =====
-- include/mattsql/common/status.hpp and result_utils.hpp. A `Status` is represented by its code and
-- a `Result` by its value or its error code: no code branches on a message.
pub mod Post
use matt_sql.Prelude.{◌≡◌, refl, Bool, true, false, if◌then◌else◌}

pub data ErrorCode : Type 0 where
  success invalid_argument not_found already_exists type_mismatch parse_error : ErrorCode
  bind_error plan_error execution_error io_error corruption transaction_conflict : ErrorCode
  not_supported internal : ErrorCode

-- `err success` is no value of the program: `error_result` is called with error codes only.
pub data Result {ℓ} (A : Type ℓ) : Type ℓ where
  ok : A → Result A
  err : ErrorCode → Result A

-- A `Status` is a result with no value.
abbrev pub Status : Type 0
Status = Result (Unit {0})

-- The early return on a failed result: `if (!r.ok()) return r.status`.
infixl 5 ◌>>=◌
abbrev pub ◌>>=◌ {ℓ κ} : {T : Type ℓ} {U : Type κ} → Result T → (T → Result U) → Result U
err code >>= next = err code
ok value >>= next = next value

infixl 5 ◌>>◌
abbrev pub ◌>>◌ {κ} : {U : Type κ} → Status → Result U → Result U
err code >> next = err code
ok done >> next = next

abbrev pub is_ok {ℓ} : {A : Type ℓ} → Result A → Bool
is_ok (ok a) = true
is_ok (err e) = false

-- A chain that succeeded, taken apart where its first part stays shut.
pub bind-eq-ok {ℓ κ} :
    {T : Type ℓ} {U : Type κ} (r : Result T) (next : T → Result U) {out : U}
    → (r >>= next) ≡ ok out
    → (value : T) × (r ≡ ok value) × (next value ≡ ok out)
bind-eq-ok (err code) next e = cc
bind-eq-ok (ok value) next e = (value, refl, e)

-- A guard that was passed.
pub guard-eq-ok {ℓ} :
    {U : Type ℓ} (test : Bool) (code : ErrorCode) {next : Result U} {out : U}
    → ((if test then err code else ok tt) >> next) ≡ ok out
    → (test ≡ false) × (next ≡ ok out)
guard-eq-ok true code e = absurd (cc e)
guard-eq-ok false code e = (refl, e)

-- To split on a computed result and keep the equation.
pub data Outcome {ℓ} {A : Type ℓ} (r : Result A) : Type ℓ where
  succeeds : (a : A) → r ≡ ok a → Outcome r
  fails : (e : ErrorCode) → r ≡ err e → Outcome r

pub outcome {ℓ} : {A : Type ℓ} (r : Result A) → Outcome r
outcome (ok a) = succeeds a refl
outcome (err e) = fails e refl
