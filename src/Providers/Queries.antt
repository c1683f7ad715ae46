-- ===== src/Providers/Queries.antt =====
-- services/payment_providers.py: the classification of an answer to a status query.
use mikrotik.Prelude.{
  ℕ, String, ◌≡◌, refl, subst, Bool, true, false, not, ◌&&◌, [], ◌∷◌, none, some, arith, str_eq,
  opt_eq, truthy, if◌then◌else◌, truthy?, eq_iff, ◌==◌, Option,
}
use mikrotik.World.{Attributes, ok, err, http}
use mikrotik.Mikrotik.{get}
use mikrotik.Providers.{classify_query, with_member}

get-with_member :
    (key v : String) (fields : Attributes) → get key (with_member key v fields) ≡ some v
unfolding get with_member
get-with_member key v [] = ground (arith, eq_iff key key)
get-with_member key v ((k, w) ∷ fields) =
    ground (arith, eq_iff key key, get-with_member key v fields)

-- The members under other names stay.
get-other :
    (key other v : String) (fields : Attributes)
    → str_eq other key ≡ false
    → get key (with_member other v fields) ≡ get key fields
unfolding get with_member
get-other key other v [] apart = rw apart refl
get-other key other v ((k, w) ∷ fields) apart =
    ground
      (arith, eq_iff k other, eq_iff k key, eq_iff other key, get-other key other v fields apart)

marked :
    (mark key : String) (fields out : Attributes)
    → with_member "_query_status" mark fields ≡ out
    → str_eq "_query_status" key ≡ false
    → (get "_query_status" out ≡ some mark) × (get key out ≡ get key fields)
marked mark key fields out same apart =
    subst (λ o. (get "_query_status" o ≡ some mark) × (get key o ≡ get key fields)) same
      (get-with_member "_query_status" mark fields, get-other key "_query_status" mark fields apart)

code-zero :
    (code : Option String) → str_eq (elim code [ none ↦ "" | some v ↦ v ]) "0" ≡ opt_eq code "0"
code-zero none = refl
code-zero (some v) = refl

error-truthy :
    (error : Option String) → truthy (elim error [ none ↦ "" | some v ↦ v ]) ≡ truthy? error
error-truthy none = refl
error-truthy (some v) = refl

module _ (fields out : Attributes) (key : String) (apart : str_eq "_query_status" key ≡ false) where
  decided :
      (right error code : Bool)
      → (if right
          then ok (with_member "_query_status" "succeeded" fields)
          else if error
          then ok (with_member "_query_status" "retryable_error" fields)
          else if code
          then ok (with_member "_query_status" "pending" fields)
          else err (http 502 "M-Pesa returned an invalid verification response"))
        ≡ ok out
      → (opt_eq (get "_query_status" out) "succeeded" ≡ right)
        × (opt_eq (get "_query_status" out) "retryable_error" ≡ (not right && error))
        × (get key out ≡ get key fields)
  decided true error code h =
      let (m, k) = marked "succeeded" key fields out (ground arith) apart in
      (rw m refl, rw m refl, k)
  decided false true code h =
      let (m, k) = marked "retryable_error" key fields out (ground arith) apart in
      (rw m refl, rw m refl, k)
  decided false false true h =
      let (m, k) = marked "pending" key fields out (ground arith) apart in (rw m refl, rw m refl, k)
  decided false false false h = cc

-- An answer that is taken is marked as succeeded exactly when its HTTP status is 200 and its result
-- code is "0", and as an error to retry exactly when it is not that and has an error code; its other
-- members, the result code among them, are those that the provider sent.
pub classify_query_sound :
    (status_code : ℕ) (fields out : Attributes) (key : String)
    → classify_query status_code fields ≡ ok out
    → str_eq "_query_status" key ≡ false
    → (opt_eq (get "_query_status" out) "succeeded"
        ≡ (status_code == 200 && opt_eq (get "ResultCode" fields) "0"))
      × (opt_eq (get "_query_status" out) "retryable_error" ≡ (
          not (status_code == 200 && opt_eq (get "ResultCode" fields) "0")
          && truthy? (get "errorCode" fields)))
      × (get key out ≡ get key fields)
unfolding classify_query
classify_query_sound status_code fields out key h apart =
    rw (← code-zero (get "ResultCode" fields), ← error-truthy (get "errorCode" fields))
      (decided fields out key apart _ _ _ h)
