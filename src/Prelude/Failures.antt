-- ===== src/Prelude/Failures.antt =====
-- src/common/errors/business.exception.ts and src/common/errors/error-codes.ts: what an operation
-- throws, and the chaining of operations that may throw.
use mathlib.Core.Path.{◌≡◌, refl}
use mathlib.Core.Logic.{◌⊎◌, inl, inr}
use mathlib.Core.Bool.{Bool, true, false}

-- `ErrorCode`
pub data ErrorCode : Type 0 where
  unknown_error internal_server_error service_unavailable timeout : ErrorCode
  rate_limit_exceeded request_too_large validation_error invalid_input : ErrorCode
  missing_required_field invalid_format value_out_of_range authentication_required : ErrorCode
  invalid_credentials token_expired token_invalid token_revoked otp_invalid : ErrorCode
  otp_expired otp_too_many_attempts account_locked forbidden : ErrorCode
  insufficient_permissions tenant_access_denied store_access_denied role_required : ErrorCode
  subscription_required trial_expired plan_limit_exceeded payment_required : ErrorCode
  not_found user_not_found product_not_found store_not_found tenant_not_found : ErrorCode
  task_not_found report_not_found scan_session_not_found ean_list_not_found : ErrorCode
  resource_gone conflict duplicate_resource ean_already_exists user_already_exists : ErrorCode
  stale_data concurrent_modification idempotency_key_reuse business_rule_violation : ErrorCode
  scan_session_closed task_already_completed grn_already_posted insufficient_stock : ErrorCode
  expiry_date_past invalid_ean_format product_discontinued : ErrorCode
  family_sharing_limit_reached external_service_error sms_delivery_failed : ErrorCode
  s3_upload_failed s3_download_failed open_food_facts_unavailable ai_service_error : ErrorCode
  email_delivery_failed payment_provider_error database_error : ErrorCode
  database_connection_failed database_query_failed database_timeout : ErrorCode
  database_deadlock : ErrorCode

-- The exception classes: `DomainNotFoundException`, `DomainForbiddenException` and a
-- `BusinessException` with its code; and a statement that the database refuses.
pub data Failure : Type 0 where
  not_found : Failure
  forbidden : Failure
  business : ErrorCode → Failure
  refused_statement : Failure

-- A transaction that throws is rolled back, so a failure carries no state.
pub data Result {ℓ} (Value : Type ℓ) : Type ℓ where
  err : Failure → Result Value
  ok : Value → Result Value

-- `if (test) throw e`
abbrev pub throw_if : Bool → Failure → Result (Unit {0})
throw_if false failure = ok tt
throw_if true failure = err failure

module _ {ℓ κ} {A : Type ℓ} {B : Type κ} where
  infixl 5 ◌>>=◌
  abbrev pub ◌>>=◌ : Result A → (A → Result B) → Result B
  err failure >>= next = err failure
  ok value >>= next = next value

  -- What a chain that succeeds went through.
  pub >>=-eq-ok :
      (m : Result A) (next : A → Result B) {b : B}
      → (m >>= next) ≡ ok b
      → (a : A) × (m ≡ ok a) × (next a ≡ ok b)
  >>=-eq-ok (err failure) next h = cc
  >>=-eq-ok (ok value) next h = (value, refl, h)

infixl 5 ◌>>◌
abbrev pub ◌>>◌ {ℓ} : {B : Type ℓ} → Result (Unit {0}) → Result B → Result B
first >> second = first >>= λ done. second

pub throw_if-ok : (b : Bool) (e : Failure) {u : Unit {0}} → throw_if b e ≡ ok u → b ≡ false
throw_if-ok true e h = cc
throw_if-ok false e h = refl

-- The inversion of a bind, as a rule: the rest of a proof is given the value and both equations.
pub >>=-ok_then {ℓ κ ℓ'} :
    {A : Type ℓ} {B : Type κ} {C : Type ℓ'} (m : Result A) (f : A → Result B) {b : B}
    → (m >>= f) ≡ ok b
    → ((a : A) → m ≡ ok a → f a ≡ ok b → C)
    → C
>>=-ok_then (ok a) f h k = k a refl h
>>=-ok_then (err e) f h k = cc

-- The result is a value, not a failure.
abbrev pub Succeeds {ℓ} : {A : Type ℓ} → Result A → Type ℓ
Succeeds {A} m = (a : A) × (m ≡ ok a)

pub Succeeds->>= {ℓ κ} :
    {A : Type ℓ} {B : Type κ} (m : Result A) (f : A → Result B) {a : A}
    → m ≡ ok a
    → Succeeds (f a)
    → Succeeds (m >>= f)
Succeeds->>= m f {a} e (b, h) = (b, rw e h)

-- A bind after a value, and after a failure.
pub ok->>= {ℓ κ} :
    {A : Type ℓ} {B : Type κ} (m : Result A) (f : A → Result B) {a : A} {r : Result B}
    → m ≡ ok a
    → f a ≡ r
    → (m >>= f) ≡ r
ok->>= m f e h = rw e h

pub err->>= {ℓ κ} :
    {A : Type ℓ} {B : Type κ} (m : Result A) (f : A → Result B) {x : Failure}
    → m ≡ err x
    → (m >>= f) ≡ err x
err->>= m f e = rw e

pub Result-cases {ℓ} :
    {A : Type ℓ} (m : Result A) → ((e : Failure) × (m ≡ err e)) ⊎ ((a : A) × (m ≡ ok a))
Result-cases (err e) = inl (e, refl)
Result-cases (ok a) = inr (a, refl)
