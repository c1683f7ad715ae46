-- ===== src/Providers/Clients.antt =====
-- services/payment_providers.py: the HTTP clients. Requests hold the members that the code sends;
-- the credentials of the token requests, headers and timeouts are left out.
use mikrotik.Prelude.{
  ℕ, ◌/◌, ◌%◌, String, not, ◌&&◌, ◌||◌, none, some, [], ◌∷◌, str_eq, truthy, truthy?, or_text, join,
  take_text, last_segment, show_number, show_two, ◌==◌, if◌then◌else◌,
}
use mikrotik.World.{
  App, Attributes, HttpReply, http, Result, ok, err, pure, raise, gets, lift, or_raise, fault,
  raise_if, send, ◌>>=◌, ◌>>◌,
}
use mikrotik.Mikrotik.{get}

pub record ProviderInitiation : Type 0 where
  pub request_id : String
  pub customer_message : String

-- `response.json()`, with the `ValueError` of a text that is no JSON, or the `AttributeError` of
-- what follows when it is no object
unfoldable pub members : HttpReply → App Attributes
members reply = or_raise reply.body (fault "The response is not a JSON object")

-- `_mpesa_token` and `_kopokopo_token`
fetch_token : String → String → String → App String
unfolding members
fetch_token url unavailable invalid = do
  response ← send (record { url = url; fields = [] })
  raise_if (not (response.status_code == 200)) (http 502 unavailable)
  fields ← members response
  let token = get "access_token" fields
  raise_if (not (truthy? token)) (http 502 invalid)
  pure (or_text token "")

unfoldable pub mpesa_token : App String
unfolding fetch_token
mpesa_token = do
  base ← gets (λ s. s.env.settings.mpesa_base_url)
  fetch_token (join base "/oauth/v1/generate") "M-Pesa authorization is unavailable"
      "M-Pesa returned an invalid authorization response"

unfoldable pub kopokopo_token : App String
unfolding fetch_token
kopokopo_token = do
  base ← gets (λ s. s.env.settings.kopokopo_base_url)
  fetch_token (join base "/oauth/token") "Kopo Kopo authorization is unavailable"
      "Kopo Kopo returned an invalid authorization response"

unfoldable pub mpesa_password : String → App String
mpesa_password timestamp = gets λ s.
    s.env.base64
      (join s.env.settings.mpesa_business_short_code (join s.env.settings.mpesa_passkey timestamp))

unfoldable pub mpesa_query_payload : String → App Attributes
unfolding mpesa_password
mpesa_query_payload checkout_request_id = do
  timestamp ← gets (λ s. s.env.timestamp s.now)
  code ← gets (λ s. s.env.settings.mpesa_business_short_code)
  password ← mpesa_password timestamp
  pure (
      ("BusinessShortCode", code)
      ∷ ("Password", password)
      ∷ ("Timestamp", timestamp)
      ∷ ("CheckoutRequestID", checkout_request_id)
      ∷ [])

-- `_response_code`
abbrev pub response_code : Attributes → String → String
response_code fields key = elim (get key fields) [ none ↦ "" | some v ↦ v ]

-- `fields | {key: value}`: a member of this name is overridden
unfoldable pub with_member : String → String → Attributes → Attributes
with_member key value [] = (key, value) ∷ []
with_member key value ((k, v) ∷ fields) =
    let rest = with_member key value fields in
    if str_eq k key then (key, value) ∷ fields else (k, v) ∷ rest

-- The classification of an answer to a status query.
unfoldable pub classify_query : ℕ → Attributes → Result Attributes
unfolding with_member
classify_query status_code fields =
    let result_code = response_code fields "ResultCode" in
    let error_code = response_code fields "errorCode" in
    if status_code == 200 && str_eq result_code "0"
    then ok (with_member "_query_status" "succeeded" fields)
    else if truthy error_code
    then ok (with_member "_query_status" "retryable_error" fields)
    else if truthy result_code
    then ok (with_member "_query_status" "pending" fields)
    else err (http 502 "M-Pesa returned an invalid verification response")

unfoldable pub mpesa_query_response : HttpReply → Result Attributes
unfolding classify_query
mpesa_query_response response = elim response.body [
  | none ↦ err (http 502 "M-Pesa returned an invalid verification response")
  | some fields ↦ classify_query response.status_code fields
]

-- `query_mpesa` and `query_mpesa_sync`
unfoldable pub query_mpesa : String → App Attributes
unfolding mpesa_token mpesa_query_payload mpesa_query_response
query_mpesa checkout_request_id = do
  base ← gets (λ s. s.env.settings.mpesa_base_url)
  mpesa_token
  payload ← mpesa_query_payload checkout_request_id
  response ← send (record { url = join base "/mpesa/stkpushquery/v1/query"; fields = payload })
  lift (mpesa_query_response response)

unfoldable pub initiate_mpesa : String → ℕ → String → App ProviderInitiation
unfolding mpesa_token mpesa_password
initiate_mpesa phone amount public_id = do
  raise_if (not (amount % 100 == 0)) (http 422 "M-Pesa packages must use whole KES amounts")
  settings ← gets (λ s. s.env.settings)
  timestamp ← gets (λ s. s.env.timestamp s.now)
  mpesa_token
  password ← mpesa_password timestamp
  response ← send (record {
    url = join settings.mpesa_base_url "/mpesa/stkpush/v1/processrequest";
    fields =
        ("BusinessShortCode", settings.mpesa_business_short_code)
        ∷ ("Password", password)
        ∷ ("Timestamp", timestamp)
        ∷ ("TransactionType", settings.mpesa_transaction_type)
        ∷ ("Amount", show_number (amount / 100))
        ∷ ("PartyA", phone)
        ∷ ("PartyB", settings.mpesa_business_short_code)
        ∷ ("PhoneNumber", phone)
        ∷ ("CallBackURL", join settings.api_public_url "/api/v1/webhooks/mpesa/stk")
        ∷ ("AccountReference", take_text 12 public_id)
        ∷ ("TransactionDesc", "Internet access")
        ∷ [];
  })
  raise_if (not (response.status_code == 200))
      (http 502 "M-Pesa could not start the payment request")
  fields ← members response
  let request_id = get "CheckoutRequestID" fields
  raise_if (not (truthy? request_id) || not (str_eq (response_code fields "ResponseCode") "0"))
      (http 502 (or_text (get "CustomerMessage" fields) "M-Pesa rejected the request"))
  pure (record {
    request_id = or_text request_id "";
    customer_message =
        or_text (get "CustomerMessage" fields) "Check your phone to complete payment";
  })

-- `str(amount)` of a column with two decimals
unfoldable pub show_amount : ℕ → String
show_amount cents = join (show_number (cents / 100)) (join "." (show_two (cents % 100)))

unfoldable pub initiate_kopokopo : String → ℕ → String → App ProviderInitiation
unfolding kopokopo_token show_amount
initiate_kopokopo phone amount public_id = do
  settings ← gets (λ s. s.env.settings)
  kopokopo_token
  response ← send (record {
    url = join settings.kopokopo_base_url "/api/v2/incoming_payments";
    fields =
        ("payment_channel", "M-PESA STK Push")
        ∷ ("till_number", settings.kopokopo_till_number)
        ∷ ("phone_number", join "+" phone)
        ∷ ("currency", "KES")
        ∷ ("value", show_amount amount)
        ∷ ("reference", public_id)
        ∷ ("notes", "Internet access")
        ∷ (
          "callback_url",
          join settings.api_public_url "/api/v1/webhooks/kopokopo/incoming-payment",
        )
        ∷ [];
  })
  raise_if (not (response.status_code == 201))
      (http 502 "Kopo Kopo could not start the payment request")
  raise_if (not (truthy? response.location)) (http 502 "Kopo Kopo returned no payment reference")
  path ← gets (λ s. s.env.url_path (or_text response.location ""))
  pure (record {
    request_id = last_segment path;
    customer_message = "Check your phone to complete payment";
  })

unfoldable pub initiate_provider : String → String → ℕ → String → App ProviderInitiation
unfolding initiate_mpesa initiate_kopokopo
initiate_provider provider phone amount public_id =
    if str_eq provider "mpesa"
    then initiate_mpesa phone amount public_id
    else if str_eq provider "kopokopo"
    then initiate_kopokopo phone amount public_id
    else raise (http 503 "Payment provider is not configured")
