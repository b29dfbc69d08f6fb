-- ===== src/Prelude/Results.antt =====
-- The outcomes of the operations of the store. Go's pair of a value and an `error` is `Result`.
use Prim.Native.String.{String}
use mathlib.Core.Bool.{Bool, true, false}
use mathlib.Core.Path.{◌≡◌, refl}
use mathlib.Core.Logic.{◌⊎◌, inl, inr}

-- The errors that the modelled code tells apart, by name or by message: `not_found` is `ErrNotFound`,
-- `record_not_found` is `gorm.ErrRecordNotFound`, and `not_exist` is `os.ErrNotExist`.
pub data Error : Type 0 where
  unavailable conflict not_found record_not_found not_exist retry_not_allowed quota_exceeded : Error
  empty_id worker_id_required bad_json bad_cursor bad_filter bad_log_name : Error
  invalid_scope invalid_page invalid_kind invalid_status expiry_required : Error
  duplicate out_of_fuel : Error
  invalid : String → Error

pub data Result {ℓ} (A : Type ℓ) : Type ℓ where
  ok : A → Result A
  err : Error → Result A

infixl 5 ◌>>=◌
abbrev pub ◌>>=◌ {ℓ κ} : {A : Type ℓ} {B : Type κ} → Result A → (A → Result B) → Result B
ok a >>= f = f a
err e >>= f = err e

pub Result-cases {ℓ} :
    {A : Type ℓ} (r : Result A) → ((e : Error) × (r ≡ err e)) ⊎ ((a : A) × (r ≡ ok a))
Result-cases (ok a) = inr (a, refl)
Result-cases (err e) = inl (e, refl)

-- A check that ends the call with an error.
abbrev pub ensure : Bool → Error → Result (Unit {0})
ensure true e = ok tt
ensure false e = err e

infixl 5 ◌>>◌
abbrev pub ◌>>◌ {ℓ} : {A : Type ℓ} → Result (Unit {0}) → Result A → Result A
check >> later = check >>= (λ (_ : Unit {0}). later)

-- A chain that succeeds has a first part that succeeds, and then the second does.
pub >>=-eq-ok {ℓ} :
    {A : Type ℓ} {B : Type 0} (first : Result A) (next : A → Result B) {result : B}
    → (first >>= next) ≡ ok result
    → (value : A) × (first ≡ ok value) × (next value ≡ ok result)
>>=-eq-ok (err problem) next done = cc
>>=-eq-ok (ok value) next done = (value, refl, done)
